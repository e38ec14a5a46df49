-- ===== src/TablesStatistics/Versions.antt =====
-- What the two versions show to the transactions through calls, checkpoints and rollbacks.
use graphflowdb.Base.{
  ℕ, ◌≡◌, refl, Bool, true, false, Option, none, some, arith, Option-cases, inl, inr, ◌∙◌,
}
use graphflowdb.Transaction.{TransactionType, read_only, write}
use graphflowdb.NodeStatistics.{
  NodeStatistics, Result, ok, no_such_node, already_deleted, node_has_edges, undefined, add_node,
  delete_node, set_max_node_offset,
}
use graphflowdb.NodeStatistics.Selector.{Selection}
use graphflowdb.TablesStatistics.{
  Tables, lookup, TablesStatistics, has_updates, write_version, checkpoint_in_memory_if_necessary,
  rollback_in_memory_if_necessary, add_table_statistic, version, table_of, get_max_node_offset_for,
  select_for, finish, on_table, on_tables, on_write_version, add_node_to, without_value,
  delete_node_of, set_max_node_offset_for_table,
}

-- The states that the calls of a write transaction lead to, the calls that throw included.
pub data Writes (s : TablesStatistics) : TablesStatistics → Type 0 where
  starts : Writes s s
  adds : {s' : TablesStatistics} (t : ℕ) → Writes s s' → Writes s (add_node_to s' t).1
  deletes :
      {s' : TablesStatistics} (has_edges : ℕ → Bool) (t x : ℕ)
      → Writes s s'
      → Writes s (delete_node_of has_edges s' t x).1
  sets :
      {s' : TablesStatistics} (t x : ℕ)
      → Writes s s'
      → Writes s (set_max_node_offset_for_table s' t x).1
  creates :
      {s' : TablesStatistics} (s'' : TablesStatistics) (t : ℕ)
      → Writes s s'
      → add_table_statistic s' t ≡ ok s''
      → Writes s s''

finish-read_only {ℓ} :
    {A : Type ℓ} (s : TablesStatistics) (m : Tables) (t : ℕ) (r : Result (A × NodeStatistics))
    → (finish s m t r).1.for_read_only_trx ≡ s.for_read_only_trx
finish-read_only s m t (ok (a, n)) = refl
finish-read_only s m t no_such_node = refl
finish-read_only s m t already_deleted = refl
finish-read_only s m t node_has_edges = refl
finish-read_only s m t undefined = refl

on_table-read_only {ℓ} :
    {A : Type ℓ} (call : NodeStatistics → Result (A × NodeStatistics)) (s : TablesStatistics)
    (m : Tables) (t : ℕ) (o : Option NodeStatistics)
    → (on_table call s m t o).1.for_read_only_trx ≡ s.for_read_only_trx
on_table-read_only call s m t none = refl
on_table-read_only call s m t (some n) = finish-read_only s m t (call n)

on_tables-read_only {ℓ} :
    {A : Type ℓ} (call : NodeStatistics → Result (A × NodeStatistics)) (s : TablesStatistics)
    (t : ℕ) (o : Option Tables)
    → (on_tables call s t o).1.for_read_only_trx ≡ s.for_read_only_trx
on_tables-read_only call s t none = refl
on_tables-read_only call s t (some m) = on_table-read_only call s m t (lookup t m)

on_write_version-read_only {ℓ} :
    {A : Type ℓ} (call : NodeStatistics → Result (A × NodeStatistics)) (s : TablesStatistics)
    (t : ℕ)
    → (on_write_version call s t).1.for_read_only_trx ≡ s.for_read_only_trx
unfolding on_write_version
on_write_version-read_only call s t = on_tables-read_only call s t (write_version s)

add_table_statistic-read_only :
    (s s' : TablesStatistics) (t : ℕ)
    → add_table_statistic s t ≡ ok s'
    → s'.for_read_only_trx ≡ s.for_read_only_trx
unfolding add_table_statistic
add_table_statistic-read_only s s' t e = elim (Option-cases (write_version s)) [
  | inl e' ↦ absurd (ground (arith, e, e'))
  | inr (m, e') ↦ ground (arith, e, e')
]

Writes-read_only :
    {s s' : TablesStatistics} → Writes s s' → s'.for_read_only_trx ≡ s.for_read_only_trx
unfolding add_node_to delete_node_of set_max_node_offset_for_table
Writes-read_only starts = refl
Writes-read_only (adds {s'} t w) = on_write_version-read_only add_node s' t ∙ Writes-read_only w
Writes-read_only (deletes {s'} has_edges t x w) =
    on_write_version-read_only (λ n. without_value (delete_node has_edges n x)) s' t
    ∙ Writes-read_only w
Writes-read_only (sets {s'} t x w) =
    on_write_version-read_only (λ n. ok (tt, set_max_node_offset n x)) s' t ∙ Writes-read_only w
Writes-read_only (creates {s'} s'' t w e) =
    add_table_statistic-read_only s' s'' t e ∙ Writes-read_only w

-- Whatever a write transaction calls, read-only transactions get the same answers as before: the
-- greatest node offset of every table, and the selected positions of every scan.
pub readers_unaffected :
    {s s' : TablesStatistics} (t first_node_offset original_size : ℕ) (selection : Selection)
    → Writes s s'
    → (get_max_node_offset_for s' read_only t ≡ get_max_node_offset_for s read_only t)
      × (select_for s' read_only t first_node_offset original_size selection
          ≡ select_for s read_only t first_node_offset original_size selection)
unfolding get_max_node_offset_for select_for version
readers_unaffected t first_node_offset original_size selection w =
    rw (Writes-read_only w) (refl, refl)

-- A rollback after any calls of a write transaction gives back the statistics before its first
-- call.
pub rollback-Writes :
    {s s' : TablesStatistics}
    → has_updates s ≡ false
    → Writes s s'
    → rollback_in_memory_if_necessary s' ≡ s
unfolding rollback_in_memory_if_necessary has_updates
rollback-Writes {s} {s'} fresh w = elim (Option-cases (s.for_write_trx)) [
  | inl e ↦ ground (arith, Writes-read_only w, e)
  | inr (m, e) ↦ absurd (ground (arith, e))
]

-- A checkpoint with updates shows the version of the write transaction to all transactions: the
-- greatest node offset of every table, and the selected positions of every scan.
pub checkpoint_shows_updates :
    (s : TablesStatistics) (type : TransactionType) (t first_node_offset original_size : ℕ)
    (selection : Selection)
    → has_updates s ≡ true
    → let s' = checkpoint_in_memory_if_necessary s in
      (get_max_node_offset_for s' type t ≡ get_max_node_offset_for s write t)
      × (select_for s' type t first_node_offset original_size selection
          ≡ select_for s write t first_node_offset original_size selection)
unfolding checkpoint_in_memory_if_necessary has_updates get_max_node_offset_for select_for version
    table_of
checkpoint_shows_updates s read_only t first_node_offset original_size selection h =
    elim (Option-cases (s.for_write_trx)) [
      | inl e ↦ absurd (ground (arith, e))
      | inr (m, e) ↦ rw e (refl, refl)
    ]
checkpoint_shows_updates s write t first_node_offset original_size selection h =
    elim (Option-cases (s.for_write_trx)) [
      | inl e ↦ absurd (ground (arith, e))
      | inr (m, e) ↦ rw e (refl, refl)
    ]
