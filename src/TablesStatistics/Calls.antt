-- ===== src/TablesStatistics/Calls.antt =====
-- What a write transaction's calls do to the statistics of the tables that it sees.
use graphflowdb.Base.{
  ℕ, ◌+◌, ◌<◌, ◌≡◌, refl, ap, ◌∙◌, ◌⊎◌, Bool, true, false, [], ◌∷◌, some, arith, if◌then◌else◌,
  ◌==◌, Option-cases, inl, inr,
}
use graphflowdb.Transaction.{write}
use graphflowdb.NodeStatistics.{
  NodeStatistics, Result, ok, undefined, uint64_max, add_node, delete_node,
}
use graphflowdb.NodeStatistics.Validity.{IsValid}
use graphflowdb.NodeStatistics.AddNode.{first_has_one, Added, add_node_fresh}
use graphflowdb.TablesStatistics.{
  Tables, lookup, assign, TablesStatistics, copy_tables, write_version, version, table_of,
  on_write_version, add_node_to, without_value, delete_node_of,
}

lookup-assign :
    (t u : ℕ) (n : NodeStatistics) (m : Tables)
    → lookup u (assign t n m) ≡ (if t == u then some n else lookup u m)
unfolding lookup assign
lookup-assign t u n [] = ground arith
lookup-assign t u n ((v, n') ∷ m) = ground (arith, lookup-assign t u n m)

copy_tables_lem : (m : Tables) → copy_tables m ≡ m
unfolding copy_tables
copy_tables_lem [] = refl
copy_tables_lem ((t, n) ∷ m) = ap (λ x. (t, n) ∷ x) (copy_tables_lem m)

write_version-version : (s : TablesStatistics) → write_version s ≡ version s write
unfolding write_version version
write_version-version s = elim (Option-cases (s.for_write_trx)) [
  | inl e ↦ elim (Option-cases (s.for_read_only_trx)) [
    | inl e' ↦ rw (e, e') refl
    | inr (m, e') ↦ rw (e, e') (ap some (copy_tables_lem m))
  ]
  | inr (m, e) ↦ rw e refl
]

-- A call that returns changes the statistics of its table for the write transaction, and no other.
on_write_version_lem {ℓ} :
    {A : Type ℓ} (call : NodeStatistics → Result (A × NodeStatistics)) (s : TablesStatistics)
    (t : ℕ) (n n' : NodeStatistics) (a : A)
    → table_of (version s write) t ≡ some n
    → call n ≡ ok (a, n')
    → ((on_write_version call s t).0 ≡ ok a)
      × ((u : ℕ)
          → table_of (version (on_write_version call s t).1 write) u
            ≡ (if t == u then some n' else table_of (version s write) u))
unfolding on_write_version table_of version
on_write_version_lem call s t n n' a seen returned = elim (Option-cases (version s write)) [
  | inl e ↦ absurd (ground (arith, e, seen))
  | inr (m, e) ↦
      let e' : write_version s ≡ some m = write_version-version s ∙ e in
      let found : lookup t m ≡ some n = rw e at seen in
      rw (e', found, returned, e) (refl, λ u. lookup-assign t u n' m)
]

-- A call that is undefined on the statistics of its table is undefined.
on_write_version_undefined {ℓ} :
    {A : Type ℓ} (call : NodeStatistics → Result (A × NodeStatistics)) (s : TablesStatistics)
    (t : ℕ) (n : NodeStatistics)
    → table_of (version s write) t ≡ some n
    → call n ≡ undefined
    → (on_write_version call s t).0 ≡ undefined
unfolding on_write_version table_of version
on_write_version_undefined call s t n seen faulty = elim (Option-cases (version s write)) [
  | inl e ↦ absurd (ground (arith, e, seen))
  | inr (m, e) ↦
      let e' : write_version s ≡ some m = write_version-version s ∙ e in
      let found : lookup t m ≡ some n = rw e at seen in rw (e', found, faulty) refl
]

-- What addNode on the table `t` does when the write transaction sees the statistics `n` of it.
abbrev pub AddsTo : TablesStatistics → ℕ → NodeStatistics → Type 0
AddsTo s t n =
    (x : ℕ) × (n' : NodeStatistics) × Added n x n'
    × ((add_node_to s t).0 ≡ ok x)
    × ((u : ℕ)
        → table_of (version (add_node_to s t).1 write) u
          ≡ (if t == u then some n' else table_of (version s write) u))

-- When the write transaction sees valid statistics of a table that is not empty and has room,
-- addNode on the table is undefined exactly when the first morsel with deleted offsets has only
-- one. Else it returns an offset that was not in use there; the transaction then sees the
-- statistics in which that offset is in use, and the other tables as before.
pub add_node_to_lem :
    (s : TablesStatistics) (t : ℕ) (n : NodeStatistics)
    → table_of (version s write) t ≡ some n
    → IsValid n
    → n.num_tuples + 1 < uint64_max
    → ((first_has_one n.deleted_node_offsets_per_morsel ≡ true) × ((add_node_to s t).0 ≡ undefined))
      ⊎ ((first_has_one n.deleted_node_offsets_per_morsel ≡ false) × AddsTo s t n)
unfolding add_node_to
add_node_to_lem s t n seen valid room = elim (add_node_fresh n valid room) [
  | inl (one, faulty) ↦ inl (one, on_write_version_undefined add_node s t n seen faulty)
  | inr (more, x, n', added) ↦
      let (returned, sees) = on_write_version_lem add_node s t n n' x seen added.returned in
      inr (more, (x, n', added, returned, sees))
]

-- When deleteNode returns on the statistics of a table that the write transaction sees, the call on
-- all tables returns as well, and the transaction then sees the changed statistics of that table
-- and the other tables as before.
pub delete_node_of_lem :
    (has_edges : ℕ → Bool) (s : TablesStatistics) (t x : ℕ) (n n' : NodeStatistics)
    → table_of (version s write) t ≡ some n
    → delete_node has_edges n x ≡ ok n'
    → ((delete_node_of has_edges s t x).0 ≡ ok tt)
      × ((u : ℕ)
          → table_of (version (delete_node_of has_edges s t x).1 write) u
            ≡ (if t == u then some n' else table_of (version s write) u))
unfolding delete_node_of
delete_node_of_lem has_edges s t x n n' seen returned =
    on_write_version_lem (λ k. without_value (delete_node has_edges k x)) s t n n' tt seen
      (ap without_value returned)
