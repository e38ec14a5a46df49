-- ===== src/Wal.antt =====
-- The write-ahead log: src/storage/wal/wal.cpp and src/storage/wal/include/wal.h.
--
-- The WAL file is a list of pages. A header page holds a record count, the index of the next
-- header page, and records by byte offset; the pages that carry updated data are blank here, since
-- the WAL never reads them. `record_size` is sizeof(WALRecord), which the ABI fixes. The mutex is
-- not modelled: every public function runs under it.
pub mod Record
pub mod Chain
pub mod Append
pub mod Replay
mod Examples
use graphflowdb.Base.{
  ℕ, zero, suc, ◌+◌, ◌^◌, ◌-◌, ◌≡◌, Bool, true, false, not, ◌&&◌, List, [], ◌∷◌, ◌++◌, Option, none,
  some, ◌==◌, ltb, if◌then◌else◌, length, get_or, set, get_elem?,
}
use graphflowdb.Wal.Record.{
  WalRecord, StorageStructureId, is_commit, new_page_update_record, new_page_insert_record,
  commit_record, table_statistics_record, catalog_record, node_table_record, rel_table_record,
  overflow_file_next_byte_pos_record, copy_node_csv_record, copy_rel_csv_record, drop_table_record,
}

abbrev pub uint32_max : ℕ
uint32_max = 2 ^ 32 - 1

abbrev pub wal_header_page_size : ℕ
wal_header_page_size = 4096

-- WAL_HEADER_PAGE_PREFIX_FIELD_SIZES: a uint64_t count and a uint32_t page index.
abbrev pub wal_header_page_prefix_field_sizes : ℕ
wal_header_page_prefix_field_sizes = 12

-- A header page, or the buffer of one. `record_at` gives the record written at a byte offset;
-- `none` stands for bytes that no record write has set.
pub record HeaderPage : Type 0 where
  pub num_records : ℕ
  pub next_header_page : ℕ
  pub record_at : ℕ → Option WalRecord

abbrev pub blank_page : HeaderPage
blank_page = record { num_records = 0; next_header_page = 0; record_at = λ _. none }

-- The state of the class WAL and of the file behind its handle.
pub record Wal : Type 0 where
  pub pages : List HeaderPage
  pub buffer : HeaderPage
  pub offset : ℕ
  pub current_header_page_idx : ℕ
  pub is_last_logged_record_commit : Bool

-- The iterator: its own buffer over a file that it only reads.
pub record WalIterator : Type 0 where
  pub buffer : HeaderPage
  pub offset : ℕ
  pub num_records_read : ℕ

-- fileHandle->addNewPage: the index of the page that is added at the end.
abbrev pub add_new_page : Wal → ℕ × Wal
add_new_page w = (length w.pages, record w { pages = w.pages ++ (blank_page ∷ []) })

abbrev pub write_page : Wal → HeaderPage → ℕ → Wal
write_page w p idx = record w { pages = set w.pages idx p }

abbrev pub reset_prefix : HeaderPage → HeaderPage
reset_prefix p = record p { num_records = 0; next_header_page = uint32_max }

pub reset_current_header_page_prefix : Wal → Wal
reset_current_header_page_prefix w = record w {
  buffer = reset_prefix w.buffer;
  offset = wal_header_page_prefix_field_sizes;
}

pub is_empty_wal : Wal → Bool
is_empty_wal w = w.current_header_page_idx == 0 && w.buffer.num_records == 0

pub flush_header_pages : Wal → Wal
unfolding is_empty_wal
flush_header_pages w =
    if not (is_empty_wal w) then write_page w w.buffer w.current_header_page_idx else w

abbrev pub has_next_record : WalIterator → Bool
has_next_record it = ltb it.num_records_read it.buffer.num_records

-- WALIterator's constructor over a file.
pub new_iterator : List HeaderPage → HeaderPage → WalIterator
new_iterator pages garbage = record {
  buffer = if ltb 0 (length pages) then get_or pages 0 blank_page else reset_prefix garbage;
  offset = wal_header_page_prefix_field_sizes;
  num_records_read = 0;
}

abbrev pub store_at : (ℕ → Option WalRecord) → ℕ → WalRecord → ℕ → Option WalRecord
store_at f o r x = if x == o then some r else f x

-- What logs a record, in one operation per public function of WAL.
pub data Log : Type 0 where
  page_update page_insert : StorageStructureId → ℕ → Log
  commit_transaction : ℕ → Log
  table_statistics : Bool → Log
  catalog : Log
  node_table rel_table copy_node_csv copy_rel_csv : ℕ → Log
  overflow_file_next_byte_pos : StorageStructureId → ℕ → Log
  drop_table : Bool → ℕ → Log

-- The test on the last record read; `none` if the reading failed.
abbrev pub last_is_commit : Option (List WalRecord) → Bool
last_is_commit none = false
last_is_commit (some []) = false
last_is_commit (some (r ∷ [])) = is_commit r
last_is_commit (some (r ∷ x ∷ rs)) = last_is_commit (some (x ∷ rs))

module _ (record_size : ℕ) where
  -- The switch to a new header page when the current one is full.
  pub next_header_page_if_full : Wal → Wal
  unfolding reset_current_header_page_prefix
  next_header_page_if_full w =
      let (next, w₁) = add_new_page w in
      let linked : HeaderPage = record w₁.buffer { next_header_page = next } in
      let w₂ : Wal = write_page (record w₁ { buffer = linked }) linked w₁.current_header_page_idx in
      if ltb wal_header_page_size (w.offset + record_size)
      then record (reset_current_header_page_prefix w₂) { current_header_page_idx = next }
      else w

  -- The count goes up, and the record is written at the offset.
  pub append_record : Wal → WalRecord → Wal
  append_record w r = record w {
    buffer = record w.buffer {
      num_records = w.buffer.num_records + 1;
      record_at = store_at w.buffer.record_at w.offset r;
    };
    offset = w.offset + record_size;
    is_last_logged_record_commit = is_commit r;
  }

  pub add_new_wal_record : Wal → WalRecord → Wal
  add_new_wal_record w r = append_record (next_header_page_if_full w) r

  pub log_page_update_record : Wal → StorageStructureId → ℕ → ℕ × Wal
  unfolding new_page_update_record
  log_page_update_record w id original =
      let (idx, w₁) = add_new_page w in
      (idx, add_new_wal_record w₁ (new_page_update_record id original idx))

  pub log_page_insert_record : Wal → StorageStructureId → ℕ → ℕ × Wal
  unfolding new_page_insert_record
  log_page_insert_record w id original =
      let (idx, w₁) = add_new_page w in
      (idx, add_new_wal_record w₁ (new_page_insert_record id original idx))

  pub log_commit : Wal → ℕ → Wal
  log_commit w transaction_id = add_new_wal_record w (commit_record transaction_id)

  -- The public function behind each operation. The page index that the first two return is dropped.
  pub log : Wal → Log → Wal
  unfolding log_page_update_record log_page_insert_record log_commit
  log w (page_update id original) = (log_page_update_record w id original).1
  log w (page_insert id original) = (log_page_insert_record w id original).1
  log w (commit_transaction t) = log_commit w t
  log w (table_statistics is_node) = add_new_wal_record w (table_statistics_record is_node)
  log w catalog = add_new_wal_record w catalog_record
  log w (node_table t) = add_new_wal_record w (node_table_record t)
  log w (rel_table t) = add_new_wal_record w (rel_table_record t)
  log w (overflow_file_next_byte_pos id prev) =
      add_new_wal_record w (overflow_file_next_byte_pos_record id prev)
  log w (copy_node_csv t) = add_new_wal_record w (copy_node_csv_record t)
  log w (copy_rel_csv t) = add_new_wal_record w (copy_rel_csv_record t)
  log w (drop_table is_node t) = add_new_wal_record w (drop_table_record is_node t)

  -- After the read of a record the iterator follows the link of a header page that is used up.
  follow_link : List HeaderPage → WalIterator → WalIterator
  follow_link pages it =
      if it.num_records_read == it.buffer.num_records
        && not (it.buffer.next_header_page == uint32_max)
      then record {
        buffer = get_or pages it.buffer.next_header_page blank_page;
        offset = wal_header_page_prefix_field_sizes;
        num_records_read = 0;
      }
      else it

  -- `none` is the RuntimeException, and a read of bytes that hold no record.
  pub get_next_record : List HeaderPage → WalIterator → Option (WalRecord × WalIterator)
  unfolding follow_link
  get_next_record pages it =
      if has_next_record it
      then elim (it.buffer.record_at it.offset) [
        | none ↦ none
        | some r ↦ some (
          r,
          follow_link pages (record it {
            offset = it.offset + record_size;
            num_records_read = it.num_records_read + 1;
          }),
        )
      ]
      else none

  -- `while (hasNextRecord()) getNextRecord(r)`: the records, in the order of the reads. The fuel
  -- bounds their number; `none` means that it ran out or a read failed.
  pub read_all : List HeaderPage → ℕ → WalIterator → Option (List WalRecord)
  read_all pages zero it = if has_next_record it then none else some []
  read_all pages (suc fuel) it = elim (has_next_record it) [
    | false ↦ some []
    | true ↦ elim (get_next_record pages it) [
      | none ↦ none
      | some (r, it') ↦ elim (read_all pages fuel it') [ none ↦ none | some rs ↦ some (r ∷ rs) ]
    ]
  ]

  -- setIsLastRecordCommit: reads all the records, and looks at the last. The fuel bounds their
  -- number; a read that fails leaves the flag as it was.
  pub set_is_last_record_commit : ℕ → Wal → Wal
  unfolding new_iterator read_all get_next_record
  set_is_last_record_commit fuel w =
      let it = new_iterator w.pages blank_page in
      if not (has_next_record it)
      then w
      else if last_is_commit (read_all w.pages fuel it)
      then record w { is_last_logged_record_commit = true }
      else w

  pub init_current_page : ℕ → Wal → Wal
  unfolding reset_current_header_page_prefix
  init_current_page fuel w =
      let w₁ : Wal = record w {
        current_header_page_idx = 0;
        is_last_logged_record_commit = false;
      } in
      if length w.pages == 0
      then reset_current_header_page_prefix (add_new_page w₁).1
      else set_is_last_record_commit fuel (record w₁ { buffer = get_or w.pages 0 blank_page })

  -- WAL's constructor over the pages of the file, empty or not. The offset is INT64_MAX until the
  -- first page is reset.
  pub open_wal : ℕ → List HeaderPage → Wal
  unfolding init_current_page
  open_wal fuel pages = init_current_page fuel (record {
    pages = pages;
    buffer = blank_page;
    offset = 2 ^ 63 - 1;
    current_header_page_idx = 2 ^ 31 - 1;
    is_last_logged_record_commit = false;
  })

  -- clearWAL, for the log itself: the frames of its pages and the WAL versions of other files are
  -- dropped besides.
  pub clear_wal : Wal → Wal
  unfolding init_current_page
  clear_wal w = init_current_page 0 (record w { pages = [] })
