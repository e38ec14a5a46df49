-- ===== src/NodeStatistics/DeleteNode.antt =====
-- deleteNode: what it returns and what it leaves.
use native.Mathlib.Decide.{dec_lt}
use graphflowdb.Base.{
  ℕ, ◌+◌, ◌-◌, ◌*◌, ◌/◌, ◌≤◌, ◌<◌, ◌≡◌, ◌↔◌, ◌⊎◌, inl, inr, refl, Bool, true, false, List, [], none,
  some, arith, length, get_or, set, if◌then◌else◌, ◌==◌, Option-cases,
}
use graphflowdb.NodeStatistics.{
  default_vector_capacity, NodeStatistics, Morsels, Result, ok, no_such_node, already_deleted,
  node_has_edges, undefined, find, is_deleted, delete_node, mark_deleted, get_max_node_offset,
  set_insert, map_set, map_insert,
}
use graphflowdb.NodeStatistics.Sets.{
  Ascending, Sorted, find-Ascending, find-map_set, find-map_insert, map_set-Sorted,
  map_set-map_insert-Sorted, contains-set_insert, set_insert-Ascending, set_insert_nonempty,
}
use graphflowdb.NodeStatistics.Validity.{
  IsValid, set_at, get_elem?-get_or, get_elem?_out, get_or-set,
}

-- The map after the offset `x` has joined the set `v` of its morsel.
pub record Joined (m m' : Morsels) (x : ℕ) (v : List ℕ) : Type 0 where
  pub found :
      (j : ℕ)
      → find j m' ≡ (if x / default_vector_capacity == j then some (set_insert x v) else find j m)
  pub sorted : Sorted 0 m'

abbrev pub Upd : NodeStatistics → ℕ → List ℕ → NodeStatistics → Type 0
Upd s x v s' =
    Joined s.deleted_node_offsets_per_morsel s'.deleted_node_offsets_per_morsel x v
    × (s'.has_deleted_nodes_per_morsel
        ≡ set s.has_deleted_nodes_per_morsel (x / default_vector_capacity) true)
    × (s'.num_tuples ≡ s.num_tuples)
    × (s'.table_id ≡ s.table_id)

set_in_morsel :
    (x : ℕ) (v : List ℕ)
    → let k = x / default_vector_capacity in
      Ascending
        (k * default_vector_capacity)
        (k * default_vector_capacity + default_vector_capacity)
        v
      → Ascending
          (k * default_vector_capacity)
          (k * default_vector_capacity + default_vector_capacity)
          (set_insert x v)
set_in_morsel x v a = set_insert-Ascending x _ _ v (omega arith) (omega arith) a

-- The set joins the map as a new key, or in place of the morsel's old set.
pub Joined-new :
    (m : Morsels) (x : ℕ)
    → let k = x / default_vector_capacity in
      Sorted 0 m → find k m ≡ none → Joined m (map_set k (set_insert x []) (map_insert k [] m)) x []
Joined-new m x sorted e =
    let k = x / default_vector_capacity in
    record {
      found = λ j. ground (
        arith,
        find-map_insert k k [] m e,
        find-map_insert k j [] m e,
        find-map_set k j (set_insert x []) [] (map_insert k [] m),
      );
      sorted =
          map_set-map_insert-Sorted k 0 (set_insert x []) m (omega arith) (set_in_morsel x [] tt)
            (set_insert_nonempty x []) e sorted;
    }

pub Joined-old :
    (m : Morsels) (x : ℕ) (v : List ℕ)
    → let k = x / default_vector_capacity in
      Sorted 0 m → find k m ≡ some v → Joined m (map_set k (set_insert x v) m) x v
Joined-old m x v sorted e =
    let k = x / default_vector_capacity in
    record {
      found = λ j. find-map_set k j (set_insert x v) v m e;
      sorted =
          map_set-Sorted k 0 (set_insert x v) m
            (set_in_morsel x v (find-Ascending k 0 m v sorted e)) (set_insert_nonempty x v) sorted;
    }

mark_deleted-Upd :
    (s : NodeStatistics) (x : ℕ)
    → IsValid s
    → let k = x / default_vector_capacity in
      (s' : NodeStatistics) × (mark_deleted s x k (get_or s.has_deleted_nodes_per_morsel k false)
        ≡ ok s')
      × Upd s x (set_at (find k s.deleted_node_offsets_per_morsel)) s'
mark_deleted-Upd s x valid = elim (Option-cases (find k m)) [
  | inl e ↦ (
    record s {
      has_deleted_nodes_per_morsel = flags;
      deleted_node_offsets_per_morsel = map_set k (set_insert x []) (map_insert k [] m);
    },
    unfold mark_deleted in ground (arith, valid.flags k, find-map_insert k k [] m e),
    rw e (Joined-new m x valid.sorted e, refl, refl, refl),
  )
  | inr (v, e) ↦ (
    record s {
      has_deleted_nodes_per_morsel = flags;
      deleted_node_offsets_per_morsel = map_set k (set_insert x v) m;
    },
    unfold mark_deleted in ground (arith, valid.flags k),
    rw e (Joined-old m x v valid.sorted e, refl, refl, refl),
  )
]
  where
    k : ℕ
    k = x / default_vector_capacity

    m : Morsels
    m = s.deleted_node_offsets_per_morsel

    flags : List Bool
    flags = set s.has_deleted_nodes_per_morsel k true

module _ (s s' : NodeStatistics) (x : ℕ) where
  pub Upd-is_deleted :
      Upd s x (set_at (find (x / default_vector_capacity) s.deleted_node_offsets_per_morsel)) s'
      → (y : ℕ) → is_deleted s' y ≡ (if x == y then true else is_deleted s y)
  unfolding is_deleted
  Upd-is_deleted u y =
      elim (Option-cases (find (x / default_vector_capacity) s.deleted_node_offsets_per_morsel)) [
        | inl e ↦
            ground (arith, u.0.found (y / default_vector_capacity), contains-set_insert x y [])
        | inr (v, e) ↦
            ground (arith, u.0.found (y / default_vector_capacity), contains-set_insert x y v)
      ]

  pub Upd-IsValid :
      Upd s x (set_at (find (x / default_vector_capacity) s.deleted_node_offsets_per_morsel)) s'
      → x < s.num_tuples
      → x / default_vector_capacity < length s.has_deleted_nodes_per_morsel
      → IsValid s
      → IsValid s'
  Upd-IsValid u exists covered valid = record {
    in_range = omega (arith, valid.in_range, u.2);
    sorted = u.0.sorted;
    flags = λ k. ground (
      arith,
      u.0.found k,
      valid.flags k,
      get_or-set s.has_deleted_nodes_per_morsel (x / default_vector_capacity) k true covered,
    );
    exist = λ y h. ground (arith, Upd-is_deleted u y, valid.exist y);
  }

module _ (has_edges : ℕ → Bool) (s : NodeStatistics) (x : ℕ) (valid : IsValid s) where
  max_node_offset_lem : 0 < s.num_tuples → get_max_node_offset s ≡ s.num_tuples - 1
  unfolding get_max_node_offset
  max_node_offset_lem h = ground (arith, valid.in_range)

  -- On valid statistics, deleting an existing offset that is not deleted and has no edges succeeds
  -- where the vector of flags has an entry for its morsel: this offset and no other becomes
  -- deleted, the number of tuples stays, and the statistics stay valid.
  pub delete_node_succeeds :
      x < s.num_tuples
      → is_deleted s x ≡ false
      → has_edges x ≡ false
      → x / default_vector_capacity < length s.has_deleted_nodes_per_morsel
      → (s' : NodeStatistics) × (delete_node has_edges s x ≡ ok s')
        × IsValid s'
        × (s'.num_tuples ≡ s.num_tuples)
        × ((y : ℕ) → is_deleted s' y ≡ (if x == y then true else is_deleted s y))
  unfolding delete_node
  delete_node_succeeds exists live free covered =
      let (s', e, u) = mark_deleted-Upd s x valid in
      (
        s',
        ground (
          arith,
          max_node_offset_lem,
          get_elem?-get_or s.has_deleted_nodes_per_morsel (x / default_vector_capacity) covered,
        ),
        Upd-IsValid s s' x u exists covered valid,
        u.2,
        Upd-is_deleted s s' x u,
      )

  -- Where the vector has no entry for the morsel, the source reads behind its end.
  pub delete_node_uncovered :
      x < s.num_tuples
      → is_deleted s x ≡ false
      → has_edges x ≡ false
      → length s.has_deleted_nodes_per_morsel ≤ x / default_vector_capacity
      → delete_node has_edges s x ≡ undefined
  unfolding delete_node
  delete_node_uncovered exists live free uncovered = ground (
    arith,
    max_node_offset_lem,
    get_elem?_out s.has_deleted_nodes_per_morsel (x / default_vector_capacity) uncovered,
  )

  abbrev Refusal : Result NodeStatistics → Type 0
  Refusal r = (r ≡ no_such_node) ⊎ (r ≡ already_deleted) ⊎ (r ≡ node_has_edges)

  not_refused :
      x < s.num_tuples
      → is_deleted s x ≡ false
      → has_edges x ≡ false
      → ¬ Refusal (delete_node has_edges s x)
  not_refused exists live free =
      elim (dec_lt (x / default_vector_capacity) (length s.has_deleted_nodes_per_morsel)) [
        | yes covered ↦
            let (s', e, _, _, _) = delete_node_succeeds exists live free covered in
            λ r. ground arith
        | no uncovered ↦
            let e = delete_node_uncovered exists live free (omega arith) in λ r. ground arith
      ]

  refused_before :
      (delete_node has_edges s x ≡ no_such_node) × (s.num_tuples ≤ x)
      ⊎ ((delete_node has_edges s x ≡ already_deleted)
            × (x < s.num_tuples)
            × (is_deleted s x ≡ true)
          ⊎ ((delete_node has_edges s x ≡ node_has_edges)
                × (x < s.num_tuples)
                × (is_deleted s x ≡ false)
                × (has_edges x ≡ true)
              ⊎ ((x < s.num_tuples) × (is_deleted s x ≡ false) × (has_edges x ≡ false))))
  unfolding delete_node get_max_node_offset
  refused_before = ground (arith, valid.in_range)

  -- On valid statistics, deleteNode refuses with "no such node" exactly the offsets that do not
  -- exist, with "already deleted" exactly the existing offsets that are deleted, and with "has
  -- edges" exactly the existing offsets that are not deleted and have edges.
  pub delete_node_refused :
      ((delete_node has_edges s x ≡ no_such_node) ↔ (s.num_tuples ≤ x))
      × ((delete_node has_edges s x ≡ already_deleted)
          ↔ ((x < s.num_tuples) × (is_deleted s x ≡ true)))
      × ((delete_node has_edges s x ≡ node_has_edges)
          ↔ ((x < s.num_tuples) × (is_deleted s x ≡ false) × (has_edges x ≡ true)))
  delete_node_refused = ground (arith, refused_before, not_refused)
