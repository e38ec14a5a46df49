-- ===== src/Wal/Record/Equality.antt =====
-- operator== of the log records and of the identifiers in them decides equality.
use graphflowdb.Base.{◌≡◌, ◌↔◌, true, arith}
use graphflowdb.Wal.Record.{
  RelNodeTableAndDir, ListId, ListFileId, StructureId, StorageStructureId, PageUpdateOrInsertRecord,
  WalRecord, adj_lists, rel_property_lists, lists, page_update_or_insert_record,
  overflow_file_next_byte_pos_record, eq_rel_node_table_and_dir, eq_list_id, eq_list_file_id,
  eq_structure_id, eq_storage_structure_id, eq_page_update_or_insert_record, eq_wal_record,
}

rel_node_table_and_dir_iff :
    (a b : RelNodeTableAndDir) → (eq_rel_node_table_and_dir a b ≡ true) ↔ (a ≡ b)
unfolding eq_rel_node_table_and_dir
rel_node_table_and_dir_iff a b = ground arith

list_id_iff : (a b : ListId) → (eq_list_id a b ≡ true) ↔ (a ≡ b)
unfolding eq_list_id
list_id_iff (adj_lists a) (adj_lists b) = ground (arith, rel_node_table_and_dir_iff a b)
list_id_iff (rel_property_lists a p) (rel_property_lists b q) =
    ground (arith, rel_node_table_and_dir_iff a b)
list_id_iff a b = ground arith

list_file_id_iff : (a b : ListFileId) → (eq_list_file_id a b ≡ true) ↔ (a ≡ b)
unfolding eq_list_file_id
list_file_id_iff a b = ground (arith, list_id_iff a.list_id b.list_id)

structure_id_iff : (a b : StructureId) → (eq_structure_id a b ≡ true) ↔ (a ≡ b)
unfolding eq_structure_id
structure_id_iff (lists a) (lists b) = ground (arith, list_file_id_iff a b)
structure_id_iff a b = ground arith

pub storage_structure_id_iff :
    (a b : StorageStructureId) → (eq_storage_structure_id a b ≡ true) ↔ (a ≡ b)
unfolding eq_storage_structure_id
storage_structure_id_iff a b = ground (arith, structure_id_iff a.structure b.structure)

page_record_iff :
    (a b : PageUpdateOrInsertRecord) → (eq_page_update_or_insert_record a b ≡ true) ↔ (a ≡ b)
unfolding eq_page_update_or_insert_record
page_record_iff a b =
    ground (arith, storage_structure_id_iff a.storage_structure_id b.storage_structure_id)

-- Two log records compare equal by operator== exactly when they are the same record: of one type
-- and equal in every field, the fields of the nested identifiers included.
pub eq_wal_record_iff : (a b : WalRecord) → (eq_wal_record a b ≡ true) ↔ (a ≡ b)
unfolding eq_wal_record
eq_wal_record_iff (page_update_or_insert_record a) (page_update_or_insert_record b) =
    ground (arith, page_record_iff a b)
eq_wal_record_iff (overflow_file_next_byte_pos_record a p)
      (overflow_file_next_byte_pos_record b q) =
    ground (arith, storage_structure_id_iff a b)
eq_wal_record_iff a b = ground arith
