-- ===== src/NodeStatistics.antt =====
-- Node offsets of a node table, the deleted ones among them: the class NodeStatisticsAndDeletedIDs
-- of src/storage/store/nodes_statistics_and_deleted_ids.cpp and of the header of that name.
--
-- A std::map is a list of entries and a std::set a list of elements, in the order of their
-- iterators. uint64_t wraps. A read or write of the vector behind its end, and an iterator that
-- does not exist, are the fault `undefined`. `has_edges` is errorIfNodeHasEdges, which asks the
-- lists and columns of the relations. addNode that empties the set of the first morsel reads
-- `iter->first` after `erase(iter)`: this is `undefined`, too.
pub mod Sets
pub mod Validity
pub mod AddNode
pub mod Growth
pub mod Loading
pub mod Samples
pub mod DeleteNode
pub mod Selector
mod Examples
use graphflowdb.Base.{
  ℕ, zero, suc, ◌+◌, ◌-◌, ◌*◌, ◌/◌, ◌%◌, ◌^◌, ◌≡◌, Bool, true, false, not, ◌||◌, List, [], ◌∷◌,
  ◌++◌, Option, none, some, ◌==◌, ltb, if◌then◌else◌, length, get_elem?, set, contains,
}

abbrev pub uint64_max : ℕ
uint64_max = 2 ^ 64 - 1

abbrev pub default_vector_capacity : ℕ
default_vector_capacity = 2048

pub data Result {ℓ} (A : Type ℓ) : Type ℓ where
  ok : A → Result A
  no_such_node already_deleted node_has_edges undefined : Result A

-- std::set::insert.
pub set_insert : ℕ → List ℕ → List ℕ
set_insert a [] = a ∷ []
set_insert a (x ∷ xs) =
    if x == a then x ∷ xs else if ltb a x then a ∷ x ∷ xs else x ∷ set_insert a xs

-- The element before end(), and the set without it, of the set x ∷ xs.
pub last : ℕ → List ℕ → ℕ
last x [] = x
last x (y ∷ ys) = last y ys

pub drop_last : ℕ → List ℕ → List ℕ
drop_last x [] = []
drop_last x (y ∷ ys) = x ∷ drop_last y ys

abbrev pub Morsels : Type 0
Morsels = List (ℕ × List ℕ)

pub find : ℕ → Morsels → Option (List ℕ)
find k [] = none
find k ((j, v) ∷ m) = if j == k then some v else find k m

-- std::map::insert of a key that is not there.
pub map_insert : ℕ → List ℕ → Morsels → Morsels
map_insert k v [] = (k, v) ∷ []
map_insert k v ((j, w) ∷ m) = if ltb k j then (k, v) ∷ (j, w) ∷ m else (j, w) ∷ map_insert k v m

-- A write through the iterator that find returns.
pub map_set : ℕ → List ℕ → Morsels → Morsels
map_set k v [] = []
map_set k v ((j, w) ∷ m) = if j == k then (j, v) ∷ m else (j, w) ∷ map_set k v m

pub record NodeStatistics : Type 0 where
  pub table_id : ℕ
  pub num_tuples : ℕ
  pub has_deleted_nodes_per_morsel : List Bool
  pub deleted_node_offsets_per_morsel : Morsels

unfoldable pub get_max_node_offset_from_num_tuples : ℕ → ℕ
get_max_node_offset_from_num_tuples num_tuples =
    if num_tuples == uint64_max then uint64_max else (num_tuples + 2 ^ 64 - 1) % 2 ^ 64

pub get_max_node_offset : NodeStatistics → ℕ
unfolding get_max_node_offset_from_num_tuples
get_max_node_offset s = get_max_node_offset_from_num_tuples s.num_tuples

-- isDeleted, at the morsel of the offset.
pub is_deleted_in : Option (List ℕ) → ℕ → Bool
is_deleted_in none node_offset = false
is_deleted_in (some v) node_offset = contains node_offset v

pub is_deleted : NodeStatistics → ℕ → Bool
unfolding is_deleted_in
is_deleted s node_offset =
    is_deleted_in (find (node_offset / default_vector_capacity) s.deleted_node_offsets_per_morsel)
      node_offset

pub add_node : NodeStatistics → Result (ℕ × NodeStatistics)
unfolding get_max_node_offset last drop_last
add_node s = elim (s.deleted_node_offsets_per_morsel) [
  | [] ↦
      let s' : NodeStatistics = record s { num_tuples = (s.num_tuples + 1) % 2 ^ 64 } in
      ok (get_max_node_offset s', s')
  | (k, []) ∷ rest ↦ undefined
  | (k, x ∷ []) ∷ rest ↦ undefined
  | (k, x ∷ y ∷ ys) ∷ rest ↦
      ok (last y ys, record s { deleted_node_offsets_per_morsel = (k, x ∷ drop_last y ys) ∷ rest })
]

-- The writes of deleteNode, with the flag and the map of the morsel read before.
mark_deleted : NodeStatistics → ℕ → ℕ → Bool → Result NodeStatistics
mark_deleted s node_offset k flag =
    let m : Morsels =
      if not flag
      then map_insert k [] s.deleted_node_offsets_per_morsel
      else s.deleted_node_offsets_per_morsel in
    elim (find k m) [
      | none ↦ undefined
      | some v ↦ ok (record s {
        has_deleted_nodes_per_morsel = set s.has_deleted_nodes_per_morsel k true;
        deleted_node_offsets_per_morsel = map_set k (set_insert node_offset v) m;
      })
    ]

pub delete_node : (ℕ → Bool) → NodeStatistics → ℕ → Result NodeStatistics
unfolding get_max_node_offset
delete_node has_edges s node_offset =
    let max_node_offset = get_max_node_offset s in
    let k = node_offset / default_vector_capacity in
    if max_node_offset == uint64_max || ltb max_node_offset node_offset
    then no_such_node
    else if is_deleted s node_offset
    then already_deleted
    else if has_edges node_offset
    then node_has_edges
    else elim (get_elem? s.has_deleted_nodes_per_morsel k) [
      | none ↦ undefined
      | some flag ↦ mark_deleted s node_offset k flag
    ]

-- std::vector<bool>::resize(n, false).
pub resize : ℕ → List Bool → List Bool
resize zero xs = []
resize (suc n) [] = false ∷ resize n []
resize (suc n) (x ∷ xs) = x ∷ resize n xs

pub set_max_node_offset : NodeStatistics → ℕ → NodeStatistics
unfolding resize
set_max_node_offset s max_node_offset =
    if max_node_offset == uint64_max then record s { num_tuples = uint64_max } else record s {
      num_tuples = (max_node_offset + 1) % 2 ^ 64;
      has_deleted_nodes_per_morsel =
          resize (max_node_offset / default_vector_capacity + 1) s.has_deleted_nodes_per_morsel;
    }

pub get_deleted_node_offsets : Morsels → List ℕ
get_deleted_node_offsets [] = []
get_deleted_node_offsets ((k, v) ∷ m) = v ++ get_deleted_node_offsets m

-- The loop body of the constructor.
pub load_deleted : NodeStatistics → ℕ → Result NodeStatistics
load_deleted s node_offset =
    let k = node_offset / default_vector_capacity in
    let m : Morsels = s.deleted_node_offsets_per_morsel in
    let flags : List Bool = set s.has_deleted_nodes_per_morsel k true in
    if not (ltb k (length s.has_deleted_nodes_per_morsel)) then undefined else elim (find k m) [
      | none ↦ ok (record s {
        has_deleted_nodes_per_morsel = flags;
        deleted_node_offsets_per_morsel = map_set k (set_insert node_offset []) (map_insert k [] m);
      })
      | some v ↦ ok (record s {
        has_deleted_nodes_per_morsel = flags;
        deleted_node_offsets_per_morsel = map_set k (set_insert node_offset v) m;
      })
    ]

pub load_all_deleted : NodeStatistics → List ℕ → Result NodeStatistics
load_all_deleted s [] = ok s
load_all_deleted s (x ∷ xs) = elim (load_deleted s x) [
  | ok s' ↦ load_all_deleted s' xs
  | _ ↦ undefined
]

pub new_node_statistics : ℕ → ℕ → List ℕ → Result NodeStatistics
unfolding set_max_node_offset
new_node_statistics table_id max_node_offset deleted_node_offsets =
    load_all_deleted
      (set_max_node_offset
        (record {
          table_id = table_id;
          num_tuples = 0;
          has_deleted_nodes_per_morsel = [];
          deleted_node_offsets_per_morsel = [];
        })
        max_node_offset)
      deleted_node_offsets
