-- ===== src/TablesStatistics.antt =====
-- The statistics of all node tables, in a version for read-only transactions and one for the write
-- transaction: src/storage/store/include/table_statistics.h, table_statistics.cpp, and the class
-- NodesStatisticsAndDeletedIDs of nodes_statistics_and_deleted_ids.h and .cpp.
use graphflowdb.Base.{
  ℕ, zero, suc, ◌+◌, ◌≡◌, Bool, true, false, ◌||◌, not, List, [], ◌∷◌, Option, none, some, arith,
  if◌then◌else◌, ◌==◌, length,
}
use graphflowdb.Transaction.{TransactionType, read_only, write}
use graphflowdb.NodeStatistics.{
  NodeStatistics, Result, ok, no_such_node, already_deleted, node_has_edges, undefined, add_node,
  delete_node, set_max_node_offset, get_max_node_offset, uint64_max,
}
use graphflowdb.NodeStatistics.Growth.{empty_table}
use graphflowdb.NodeStatistics.Selector.{Selection, set_deleted_node_offsets_for_morsel}
pub mod Versions
pub mod Calls
mod Examples

-- The map from table ids, in the order of its iteration.
abbrev pub Tables : Type 0
Tables = List (ℕ × NodeStatistics)

pub lookup : ℕ → Tables → Option NodeStatistics
lookup t [] = none
lookup t ((u, s) ∷ m) = if u == t then some s else lookup t m

-- operator[] on the left of an assignment.
pub assign : ℕ → NodeStatistics → Tables → Tables
assign t s [] = (t, s) ∷ []
assign t s ((u, s') ∷ m) = if u == t then (u, s) ∷ m else (u, s') ∷ assign t s m

pub erase_table : ℕ → Tables → Tables
erase_table t [] = []
erase_table t ((u, s) ∷ m) = if u == t then m else (u, s) ∷ erase_table t m

-- The two pointers; `none` is the null pointer.
pub record TablesStatistics : Type 0 where
  pub for_read_only_trx : Option Tables
  pub for_write_trx : Option Tables

abbrev pub new_tables_statistics : TablesStatistics
new_tables_statistics = record { for_read_only_trx = some []; for_write_trx = none }

abbrev pub is_some : Option Tables → Bool
is_some none = false
is_some (some m) = true

pub has_updates : TablesStatistics → Bool
has_updates s = is_some s.for_write_trx

-- The copy constructor of the statistics copies every field, so a copied entry is the entry.
pub copy_tables : Tables → Tables
copy_tables [] = []
copy_tables ((t, s) ∷ m) = (t, s) ∷ copy_tables m

-- `none` is a dereferenced null pointer.
pub write_version : TablesStatistics → Option Tables
unfolding copy_tables
write_version s = elim (s.for_write_trx) [
  | some m ↦ some m
  | none ↦ elim (s.for_read_only_trx) [ none ↦ none | some m ↦ some (copy_tables m) ]
]

pub checkpoint_in_memory_if_necessary : TablesStatistics → TablesStatistics
checkpoint_in_memory_if_necessary s = record {
  for_read_only_trx = s.for_write_trx;
  for_write_trx = none;
}

pub rollback_in_memory_if_necessary : TablesStatistics → TablesStatistics
rollback_in_memory_if_necessary s = record s { for_write_trx = none }

pub add_table_statistic : TablesStatistics → ℕ → Result TablesStatistics
unfolding write_version assign
add_table_statistic s t = elim (write_version s) [
  | none ↦ undefined
  | some m ↦ ok (record s { for_write_trx = some (assign t (empty_table t) m) })
]

pub remove_table_statistic : TablesStatistics → ℕ → Result TablesStatistics
unfolding erase_table
remove_table_statistic s t = elim (s.for_read_only_trx) [
  | none ↦ undefined
  | some m ↦ ok (record s { for_read_only_trx = some (erase_table t m) })
]

-- The version that a transaction sees.
pub version : TablesStatistics → TransactionType → Option Tables
version s read_only = s.for_read_only_trx
version s write = elim (s.for_write_trx) [ none ↦ s.for_read_only_trx | some m ↦ some m ]

-- The statistics of a table in a version; a missing key gives a null pointer, which is then
-- dereferenced.
pub table_of : Option Tables → ℕ → Option NodeStatistics
unfolding lookup
table_of none t = none
table_of (some m) t = lookup t m

pub get_max_node_offset_for : TablesStatistics → TransactionType → ℕ → Result ℕ
unfolding version table_of
get_max_node_offset_for s type t = elim (table_of (version s type) t) [
  | none ↦ undefined
  | some n ↦ ok (get_max_node_offset n)
]

pub select_for : TablesStatistics → TransactionType → ℕ → ℕ → ℕ → Selection → Result Selection
unfolding version table_of
select_for s type t first_node_offset original_size selection = elim (table_of (version s type) t) [
  | none ↦ undefined
  | some n ↦ set_deleted_node_offsets_for_morsel n first_node_offset original_size selection
]

-- The call on the statistics of a table, with the write version in place. The statistics change
-- when the call returns; an exception leaves the write version, and `undefined` stands for a null
-- pointer as well.
abbrev pub finish {ℓ} :
    {A : Type ℓ}
    → TablesStatistics
    → Tables
    → ℕ
    → Result (A × NodeStatistics)
    → Result A × TablesStatistics
finish s m t (ok (a, n)) = (ok a, record s { for_write_trx = some (assign t n m) })
finish s m t no_such_node = (no_such_node, record s { for_write_trx = some m })
finish s m t already_deleted = (already_deleted, record s { for_write_trx = some m })
finish s m t node_has_edges = (node_has_edges, record s { for_write_trx = some m })
finish s m t undefined = (undefined, record s { for_write_trx = some m })

abbrev pub on_table {ℓ} :
    {A : Type ℓ}
    → (NodeStatistics → Result (A × NodeStatistics))
    → TablesStatistics
    → Tables
    → ℕ
    → Option NodeStatistics
    → Result A × TablesStatistics
on_table call s m t none = (undefined, record s { for_write_trx = some m })
on_table call s m t (some n) = finish s m t (call n)

abbrev pub on_tables {ℓ} :
    {A : Type ℓ}
    → (NodeStatistics → Result (A × NodeStatistics))
    → TablesStatistics
    → ℕ
    → Option Tables
    → Result A × TablesStatistics
on_tables call s t none = (undefined, s)
on_tables call s t (some m) = on_table call s m t (lookup t m)

pub on_write_version {ℓ} :
    {A : Type ℓ}
    → (NodeStatistics → Result (A × NodeStatistics))
    → TablesStatistics
    → ℕ
    → Result A × TablesStatistics
unfolding write_version lookup
on_write_version call s t = on_tables call s t (write_version s)

pub add_node_to : TablesStatistics → ℕ → Result ℕ × TablesStatistics
unfolding on_write_version
add_node_to s t = on_write_version add_node s t

abbrev pub without_value : Result NodeStatistics → Result (Unit {0} × NodeStatistics)
without_value (ok n) = ok (tt, n)
without_value no_such_node = no_such_node
without_value already_deleted = already_deleted
without_value node_has_edges = node_has_edges
without_value undefined = undefined

pub delete_node_of : (ℕ → Bool) → TablesStatistics → ℕ → ℕ → Result (Unit {0}) × TablesStatistics
unfolding on_write_version
delete_node_of has_edges s t x =
    on_write_version (λ n. without_value (delete_node has_edges n x)) s t

pub set_max_node_offset_for_table : TablesStatistics → ℕ → ℕ → Result (Unit {0}) × TablesStatistics
unfolding on_write_version
set_max_node_offset_for_table s t x = on_write_version (λ n. ok (tt, set_max_node_offset n x)) s t
