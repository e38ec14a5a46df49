-- ===== src/NodeStatistics/Loading.antt =====
-- The constructor from a stored list of deleted offsets, and getDeletedNodeOffsets, which gives the
-- list to store.
use graphflowdb.Base.{
  ℕ, zero, suc, ◌+◌, ◌-◌, ◌*◌, ◌/◌, ◌%◌, ◌^◌, ◌<◌, ◌≡◌, refl, sym, ap, ◌∙◌, Bool, true, false, List,
  [], ◌∷◌, ◌++◌, arith, length, get_or, set, if◌then◌else◌, ◌==◌, contains, Option-cases, inl, inr,
  length-set,
}
use graphflowdb.NodeStatistics.{
  uint64_max, default_vector_capacity, NodeStatistics, Morsels, ok, find, is_deleted, is_deleted_in,
  get_max_node_offset, get_deleted_node_offsets, load_deleted, load_all_deleted, resize,
  set_max_node_offset, new_node_statistics, map_insert, map_set, set_insert,
}
use graphflowdb.NodeStatistics.Sets.{Sorted, find_below, contains_bounds}
use graphflowdb.NodeStatistics.Validity.{IsValid, IsCovered, set_at}
use graphflowdb.NodeStatistics.DeleteNode.{Joined-new, Joined-old, Upd, Upd-is_deleted, Upd-IsValid}

load_deleted-Upd :
    (s : NodeStatistics) (x : ℕ)
    → IsValid s
    → x / default_vector_capacity < length s.has_deleted_nodes_per_morsel
    → (s' : NodeStatistics) × (load_deleted s x ≡ ok s')
      × Upd s x (set_at (find (x / default_vector_capacity) s.deleted_node_offsets_per_morsel)) s'
load_deleted-Upd s x valid covered = elim (Option-cases (find k m)) [
  | inl e ↦ (
    record s {
      has_deleted_nodes_per_morsel = flags;
      deleted_node_offsets_per_morsel = map_set k (set_insert x []) (map_insert k [] m);
    },
    unfold load_deleted in ground (arith, e),
    rw e (Joined-new m x valid.sorted e, refl, refl, refl),
  )
  | inr (v, e) ↦ (
    record s {
      has_deleted_nodes_per_morsel = flags;
      deleted_node_offsets_per_morsel = map_set k (set_insert x v) m;
    },
    unfold load_deleted in ground (arith, e),
    rw e (Joined-old m x v valid.sorted e, refl, refl, refl),
  )
]
  where
    k : ℕ
    k = x / default_vector_capacity

    m : Morsels
    m = s.deleted_node_offsets_per_morsel

    flags : List Bool
    flags = set s.has_deleted_nodes_per_morsel k true

-- What loading a list of deleted offsets into statistics leaves.
pub record Loaded (s : NodeStatistics) (xs : List ℕ) (s' : NodeStatistics) : Type 0 where
  pub valid : IsValid s'
  pub covered : IsCovered s'
  pub same_table : s'.table_id ≡ s.table_id
  pub same_count : s'.num_tuples ≡ s.num_tuples
  pub deleted : (y : ℕ) → is_deleted s' y ≡ (if contains y xs then true else is_deleted s y)

load_all_deleted-cons :
    (s s₁ : NodeStatistics) (x : ℕ) (xs : List ℕ)
    → load_deleted s x ≡ ok s₁
    → load_all_deleted s (x ∷ xs) ≡ load_all_deleted s₁ xs
unfolding load_all_deleted
load_all_deleted-cons s s₁ x xs e = rw (e, load_all_deleted) refl

load_all_deleted-Loaded :
    (s : NodeStatistics) (xs : List ℕ)
    → IsValid s
    → IsCovered s
    → ((y : ℕ) → contains y xs ≡ true → y < s.num_tuples)
    → (s' : NodeStatistics) × (load_all_deleted s xs ≡ ok s') × Loaded s xs s'
unfolding load_all_deleted
load_all_deleted-Loaded s [] valid covered exist = (
  s,
  refl,
  record {
    valid = valid;
    covered = covered;
    same_table = refl;
    same_count = refl;
    deleted = λ y. refl;
  },
)
load_all_deleted-Loaded s (x ∷ xs) valid covered exist =
    let below : x < s.num_tuples = exist x (ground arith) in
    let flagged : x / default_vector_capacity < length s.has_deleted_nodes_per_morsel =
      omega (arith, below, covered) in
    let (s₁, loaded, u) = load_deleted-Upd s x valid flagged in
    let exist₁ : (y : ℕ) → contains y xs ≡ true → y < s₁.num_tuples =
      λ y h. omega (arith, exist y (ground arith), u.2) in
    let length₁ : length s₁.has_deleted_nodes_per_morsel ≡ length s.has_deleted_nodes_per_morsel =
      ap length u.1
      ∙ length-set s.has_deleted_nodes_per_morsel (x / default_vector_capacity) true in
    let (s', rest, l) =
      load_all_deleted-Loaded s₁ xs (Upd-IsValid s s₁ x u below flagged valid)
        (omega (arith, covered, u.2, length₁)) exist₁ in
    (
      s',
      load_all_deleted-cons s s₁ x xs loaded ∙ rest,
      record {
        valid = l.valid;
        covered = l.covered;
        same_table = l.same_table ∙ u.3;
        same_count = l.same_count ∙ u.2;
        deleted = λ y. ground (arith, l.deleted y, Upd-is_deleted s s₁ x u y);
      },
    )

length-resize : (n : ℕ) (xs : List Bool) → length (resize n xs) ≡ n
unfolding resize
length-resize zero xs = refl
length-resize (suc n) [] = ap suc (length-resize n [])
length-resize (suc n) (x ∷ xs) = ap suc (length-resize n xs)

get_or-resize : (n k : ℕ) → get_or (resize n []) k false ≡ false
unfolding resize
get_or-resize zero k = refl
get_or-resize (suc n) zero = refl
get_or-resize (suc n) (suc k) = get_or-resize n k

contains-append :
    (y : ℕ) (xs ys : List ℕ)
    → contains y (xs ++ ys) ≡ (if contains y xs then true else contains y ys)
contains-append y [] ys = refl
contains-append y (x ∷ xs) ys = ground (arith, contains-append y xs ys)

-- The stored list holds exactly the offsets of the map.
contains-get_deleted_node_offsets :
    (y lo : ℕ) (m : Morsels)
    → Sorted lo m
    → contains y (get_deleted_node_offsets m)
      ≡ is_deleted_in (find (y / default_vector_capacity) m) y
unfolding get_deleted_node_offsets is_deleted_in find
contains-get_deleted_node_offsets y lo [] sorted = refl
contains-get_deleted_node_offsets y lo ((j, v) ∷ m) sorted = ground (
  arith,
  contains-append y v (get_deleted_node_offsets m),
  contains-get_deleted_node_offsets y (j + 1) m sorted.3,
  find_below (y / default_vector_capacity) (j + 1) m sorted.3,
  contains_bounds y (j * default_vector_capacity)
      (j * default_vector_capacity + default_vector_capacity) v sorted.1,
)

-- The statistics before the list is loaded.
unloaded : ℕ → ℕ → NodeStatistics
unloaded table_id num_tuples = record {
  table_id = table_id;
  num_tuples = num_tuples;
  has_deleted_nodes_per_morsel = resize ((num_tuples - 1) / default_vector_capacity + 1) [];
  deleted_node_offsets_per_morsel = [];
}

unloaded-IsValid :
    (table_id num_tuples : ℕ) → num_tuples < uint64_max → IsValid (unloaded table_id num_tuples)
unfolding unloaded is_deleted find is_deleted_in
unloaded-IsValid table_id num_tuples h = record {
  in_range = h;
  sorted = tt;
  flags = λ k. get_or-resize ((num_tuples - 1) / default_vector_capacity + 1) k;
  exist = λ x e. ground arith;
}

unloaded-IsCovered : (table_id num_tuples : ℕ) → IsCovered (unloaded table_id num_tuples)
unfolding unloaded
unloaded-IsCovered table_id num_tuples =
    omega (arith, length-resize ((num_tuples - 1) / default_vector_capacity + 1) [])

started :
    (s : NodeStatistics)
    → 0 < s.num_tuples
    → s.num_tuples < uint64_max
    → set_max_node_offset
        (record {
          table_id = s.table_id;
          num_tuples = 0;
          has_deleted_nodes_per_morsel = [];
          deleted_node_offsets_per_morsel = [];
        })
        (get_max_node_offset s)
      ≡ unloaded s.table_id s.num_tuples
unfolding set_max_node_offset get_max_node_offset unloaded
started s some_tuples h =
    let last : get_max_node_offset s ≡ s.num_tuples - 1 = ground arith in
    let count : (s.num_tuples - 1 + 1) % 2 ^ 64 ≡ s.num_tuples = omega arith in
    let defined : (s.num_tuples - 1 == uint64_max) ≡ false = ground arith in
    rw (last, defined, count) refl

-- The statistics read back: as the stored ones, with a flag for every morsel.
pub record Reloaded (s s' : NodeStatistics) : Type 0 where
  pub valid : IsValid s'
  pub covered : IsCovered s'
  pub same_table : s'.table_id ≡ s.table_id
  pub same_count : s'.num_tuples ≡ s.num_tuples
  pub same_deleted : (y : ℕ) → is_deleted s' y ≡ is_deleted s y

stored_exist :
    (s : NodeStatistics)
    → IsValid s
    → (y : ℕ) → contains y (get_deleted_node_offsets s.deleted_node_offsets_per_morsel) ≡ true
    → y < (unloaded s.table_id s.num_tuples).num_tuples
unfolding is_deleted unloaded
stored_exist s valid y h =
    valid.exist y (
      sym (contains-get_deleted_node_offsets y 0 s.deleted_node_offsets_per_morsel valid.sorted)
      ∙ h)

stored_deleted :
    (s : NodeStatistics)
    → IsValid s
    → (y : ℕ)
    → (if contains y (get_deleted_node_offsets s.deleted_node_offsets_per_morsel)
        then true
        else is_deleted (unloaded s.table_id s.num_tuples) y)
      ≡ is_deleted s y
unfolding is_deleted unloaded find is_deleted_in
stored_deleted s valid y =
    ground
      (arith, contains-get_deleted_node_offsets y 0 s.deleted_node_offsets_per_morsel valid.sorted)

-- Storing valid statistics of a table that is not empty, as their greatest offset and the list of
-- their deleted offsets, and constructing statistics from these succeeds, without a write behind the
-- end of the vector of flags. The new statistics are valid, have a flag for every morsel, and have the
-- same table, the same number of tuples and the same deleted offsets.
pub new_node_statistics-get_deleted_node_offsets :
    (s : NodeStatistics)
    → IsValid s
    → 0 < s.num_tuples
    → (s' : NodeStatistics) × (new_node_statistics s.table_id
          (get_max_node_offset s)
          (get_deleted_node_offsets s.deleted_node_offsets_per_morsel)
        ≡ ok s')
      × Reloaded s s'
unfolding new_node_statistics unloaded
new_node_statistics-get_deleted_node_offsets s valid some_tuples =
    let s₀ = unloaded s.table_id s.num_tuples in
    let xs = get_deleted_node_offsets s.deleted_node_offsets_per_morsel in
    let (s', loaded, l) =
      load_all_deleted-Loaded s₀ xs (unloaded-IsValid s.table_id s.num_tuples valid.in_range)
        (unloaded-IsCovered s.table_id s.num_tuples) (stored_exist s valid) in
    (
      s',
      ap (λ n. load_all_deleted n xs) (started s some_tuples valid.in_range) ∙ loaded,
      record {
        valid = l.valid;
        covered = l.covered;
        same_table = l.same_table;
        same_count = l.same_count;
        same_deleted = λ y. l.deleted y ∙ stored_deleted s valid y;
      },
    )
