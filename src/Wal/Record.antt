-- ===== src/Wal/Record.antt =====
-- The log records and the storage-structure identifiers they carry: src/storage/wal/include/
-- wal_record.h and src/storage/wal/wal_record.cpp. A tag with its union is a data type with one
-- constructor per tag, so the branches that throw on an unknown tag have no counterpart. Table
-- ids, property ids and page indices are plain numbers.
pub mod Equality
use graphflowdb.Base.{ℕ, ◌≡◌, refl, ◌↔◌, Bool, true, false, ◌&&◌, arith, ◌==◌, if◌then◌else◌}

pub data RelDirection : Type 0 where
  fwd bwd : RelDirection

pub data ListFileType : Type 0 where
  base_lists headers metadata : ListFileType

pub record RelNodeTableAndDir : Type 0 where
  pub rel_table_id : ℕ
  pub src_node_table_id : ℕ
  pub dir : RelDirection

-- The ListType tag with the union of ListFileID.
pub data ListId : Type 0 where
  unstructured_node_property_lists : ℕ → ListId
  adj_lists : RelNodeTableAndDir → ListId
  rel_property_lists : RelNodeTableAndDir → ℕ → ListId

pub record ListFileId : Type 0 where
  pub list_file_type : ListFileType
  pub list_id : ListId

-- The StorageStructureType tag with the union of StorageStructureID.
pub data StructureId : Type 0 where
  structured_node_property_column : ℕ → ℕ → StructureId
  lists : ListFileId → StructureId
  node_index : ℕ → StructureId

pub record StorageStructureId : Type 0 where
  pub is_overflow : Bool
  pub structure : StructureId

pub record PageUpdateOrInsertRecord : Type 0 where
  pub storage_structure_id : StorageStructureId
  pub page_idx_in_original_file : ℕ
  pub page_idx_in_wal : ℕ
  pub is_insert : Bool

pub data WalRecord : Type 0 where
  page_update_or_insert_record : PageUpdateOrInsertRecord → WalRecord
  table_statistics_record : Bool → WalRecord
  commit_record : ℕ → WalRecord
  catalog_record : WalRecord
  node_table_record : ℕ → WalRecord
  rel_table_record : ℕ → WalRecord
  overflow_file_next_byte_pos_record : StorageStructureId → ℕ → WalRecord
  copy_node_csv_record : ℕ → WalRecord
  copy_rel_csv_record : ℕ → WalRecord
  drop_table_record : Bool → ℕ → WalRecord

-- operator== of each type.
abbrev pub eq_bool : Bool → Bool → Bool
eq_bool true true = true
eq_bool false false = true
eq_bool _ _ = false

abbrev eq_direction : RelDirection → RelDirection → Bool
eq_direction fwd fwd = true
eq_direction bwd bwd = true
eq_direction _ _ = false

abbrev eq_file_type : ListFileType → ListFileType → Bool
eq_file_type base_lists base_lists = true
eq_file_type headers headers = true
eq_file_type metadata metadata = true
eq_file_type _ _ = false

pub eq_rel_node_table_and_dir : RelNodeTableAndDir → RelNodeTableAndDir → Bool
eq_rel_node_table_and_dir a b =
    a.rel_table_id == b.rel_table_id
    && a.src_node_table_id == b.src_node_table_id
    && eq_direction a.dir b.dir

pub eq_list_id : ListId → ListId → Bool
eq_list_id (unstructured_node_property_lists a) (unstructured_node_property_lists b) = a == b
eq_list_id (adj_lists a) (adj_lists b) = eq_rel_node_table_and_dir a b
eq_list_id (rel_property_lists a p) (rel_property_lists b q) =
    eq_rel_node_table_and_dir a b && p == q
eq_list_id _ _ = false

pub eq_list_file_id : ListFileId → ListFileId → Bool
eq_list_file_id a b =
    eq_file_type a.list_file_type b.list_file_type && eq_list_id a.list_id b.list_id

pub eq_structure_id : StructureId → StructureId → Bool
eq_structure_id (structured_node_property_column t p) (structured_node_property_column u q) =
    t == u && p == q
eq_structure_id (lists a) (lists b) = eq_list_file_id a b
eq_structure_id (node_index t) (node_index u) = t == u
eq_structure_id _ _ = false

pub eq_storage_structure_id : StorageStructureId → StorageStructureId → Bool
eq_storage_structure_id a b =
    eq_bool a.is_overflow b.is_overflow && eq_structure_id a.structure b.structure

pub eq_page_update_or_insert_record : PageUpdateOrInsertRecord → PageUpdateOrInsertRecord → Bool
eq_page_update_or_insert_record a b =
    eq_storage_structure_id a.storage_structure_id b.storage_structure_id
    && a.page_idx_in_original_file == b.page_idx_in_original_file
    && a.page_idx_in_wal == b.page_idx_in_wal
    && eq_bool a.is_insert b.is_insert

pub eq_wal_record : WalRecord → WalRecord → Bool
eq_wal_record (page_update_or_insert_record a) (page_update_or_insert_record b) =
    eq_page_update_or_insert_record a b
eq_wal_record (table_statistics_record a) (table_statistics_record b) = eq_bool a b
eq_wal_record (commit_record a) (commit_record b) = a == b
eq_wal_record catalog_record catalog_record = true
eq_wal_record (node_table_record a) (node_table_record b) = a == b
eq_wal_record (rel_table_record a) (rel_table_record b) = a == b
eq_wal_record (overflow_file_next_byte_pos_record a p) (overflow_file_next_byte_pos_record b q) =
    eq_storage_structure_id a b && p == q
eq_wal_record (copy_node_csv_record a) (copy_node_csv_record b) = a == b
eq_wal_record (copy_rel_csv_record a) (copy_rel_csv_record b) = a == b
eq_wal_record (drop_table_record n a) (drop_table_record m b) = eq_bool n m && a == b
eq_wal_record _ _ = false

-- The factories of StorageStructureID. `new_node_index_id` leaves is_overflow uninitialised in
-- the source, so its value is an argument here.
pub new_structured_node_property_column_id : ℕ → ℕ → Bool → StorageStructureId
new_structured_node_property_column_id table_id property_id is_overflow = record {
  is_overflow = is_overflow;
  structure = structured_node_property_column table_id property_id;
}

pub new_structured_node_property_main_column_id : ℕ → ℕ → StorageStructureId
new_structured_node_property_main_column_id table_id property_id =
    new_structured_node_property_column_id table_id property_id false

pub new_structured_node_property_column_overflow_pages_id : ℕ → ℕ → StorageStructureId
new_structured_node_property_column_overflow_pages_id table_id property_id =
    new_structured_node_property_column_id table_id property_id true

pub new_node_index_id : Bool → ℕ → StorageStructureId
new_node_index_id garbage table_id = record {
  is_overflow = garbage;
  structure = node_index table_id;
}

new_lists_id : ListFileType → ListId → StorageStructureId
new_lists_id t i = record {
  is_overflow = false;
  structure = lists (record { list_file_type = t; list_id = i });
}

abbrev rel_node_table_and_dir : ℕ → ℕ → RelDirection → RelNodeTableAndDir
rel_node_table_and_dir rel_table src_table dir = record {
  rel_table_id = rel_table;
  src_node_table_id = src_table;
  dir = dir;
}

pub new_unstructured_node_property_lists_id : ℕ → ListFileType → StorageStructureId
new_unstructured_node_property_lists_id table_id t =
    new_lists_id t (unstructured_node_property_lists table_id)

pub new_adj_lists_id : ℕ → ℕ → RelDirection → ListFileType → StorageStructureId
new_adj_lists_id table_id src_node_table_id dir t =
    new_lists_id t (adj_lists (rel_node_table_and_dir table_id src_node_table_id dir))

pub new_rel_property_lists_id : ℕ → ℕ → RelDirection → ℕ → ListFileType → StorageStructureId
new_rel_property_lists_id node_table_id rel_table_id dir property_id t =
    new_lists_id t
      (rel_property_lists (rel_node_table_and_dir node_table_id rel_table_id dir) property_id)

-- The factories of WALRecord that take more than their constructor's arguments.
new_page_insert_or_update_record : StorageStructureId → ℕ → ℕ → Bool → WalRecord
new_page_insert_or_update_record id original in_wal is_insert =
    page_update_or_insert_record (record {
      storage_structure_id = id;
      page_idx_in_original_file = original;
      page_idx_in_wal = in_wal;
      is_insert = is_insert;
    })

unfoldable pub new_page_update_record : StorageStructureId → ℕ → ℕ → WalRecord
unfolding new_page_insert_or_update_record
new_page_update_record id original in_wal =
    new_page_insert_or_update_record id original in_wal false

unfoldable pub new_page_insert_record : StorageStructureId → ℕ → ℕ → WalRecord
unfolding new_page_insert_or_update_record
new_page_insert_record id original in_wal = new_page_insert_or_update_record id original in_wal true

abbrev pub is_commit : WalRecord → Bool
is_commit (commit_record t) = true
is_commit _ = false
