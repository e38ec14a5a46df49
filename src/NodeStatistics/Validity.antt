-- ===== src/NodeStatistics/Validity.antt =====
-- What a node table's statistics satisfy between calls, and its view as a count of offsets with a
-- set of deleted ones.
use graphflowdb.Base.{
  ℕ, zero, suc, ◌*◌, ◌≤◌, ◌<◌, ◌≡◌, refl, Bool, true, false, List, [], ◌∷◌, Option, none, some,
  arith, length, get_or, get_elem?, set, if◌then◌else◌, ◌==◌,
}
use graphflowdb.NodeStatistics.{
  uint64_max, default_vector_capacity, NodeStatistics, find, is_deleted,
}
use graphflowdb.NodeStatistics.Sets.{Sorted}

abbrev pub is_some {ℓ} : {A : Type ℓ} → Option A → Bool
is_some none = false
is_some (some a) = true

-- The deleted offsets of a morsel.
abbrev pub set_at : Option (List ℕ) → List ℕ
set_at none = []
set_at (some v) = v

-- The table is not empty in the sense of UINT64_MAX; a morsel's flag says whether it has deleted
-- offsets; the deleted offsets stand in ascending sets at their morsels and exist.
pub record IsValid (s : NodeStatistics) : Type 0 where
  pub in_range : s.num_tuples < uint64_max
  pub sorted : Sorted 0 s.deleted_node_offsets_per_morsel
  pub flags :
      (k : ℕ)
      → get_or s.has_deleted_nodes_per_morsel k false
        ≡ is_some (find k s.deleted_node_offsets_per_morsel)
  pub exist : (x : ℕ) → is_deleted s x ≡ true → x < s.num_tuples

-- The vector of flags has an entry for the morsel of every offset.
abbrev pub IsCovered : NodeStatistics → Type 0
IsCovered s = s.num_tuples ≤ default_vector_capacity * length s.has_deleted_nodes_per_morsel

pub get_or-true : (xs : List Bool) (k : ℕ) → get_or xs k false ≡ true → k < length xs
get_or-true [] k h = cc
get_or-true (x ∷ xs) zero h = omega arith
get_or-true (x ∷ xs) (suc k) h = omega (arith, get_or-true xs k h)

pub get_elem?-get_or :
    (xs : List Bool) (k : ℕ) → k < length xs → get_elem? xs k ≡ some (get_or xs k false)
get_elem?-get_or [] k h = elim h [ ]
get_elem?-get_or (x ∷ xs) zero h = refl
get_elem?-get_or (x ∷ xs) (suc k) h = get_elem?-get_or xs k (omega arith)

pub get_elem?_out : (xs : List Bool) (k : ℕ) → length xs ≤ k → get_elem? xs k ≡ none
get_elem?_out [] k h = refl
get_elem?_out (x ∷ xs) zero h = absurd (omega arith)
get_elem?_out (x ∷ xs) (suc k) h = get_elem?_out xs k (omega arith)

pub get_or-set :
    (xs : List Bool) (i j : ℕ) (v : Bool)
    → i < length xs
    → get_or (set xs i v) j false ≡ (if i == j then v else get_or xs j false)
get_or-set [] i j v h = elim h [ ]
get_or-set (x ∷ xs) zero zero v h = refl
get_or-set (x ∷ xs) zero (suc j) v h = ground arith
get_or-set (x ∷ xs) (suc i) zero v h = ground arith
get_or-set (x ∷ xs) (suc i) (suc j) v h = ground (arith, get_or-set xs i j v)
