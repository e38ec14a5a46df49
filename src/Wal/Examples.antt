-- ===== src/Wal/Examples.antt =====
-- Runs of the WAL with records of 80 bytes, 51 to a header page, and uses of its theorems.
use graphflowdb.Base.{ℕ, zero, suc, ◌≡◌, refl, ◌↔◌, true, false, List, [], ◌∷◌, some, arith, length}
use graphflowdb.Wal.{
  Wal, blank_page, Log, page_update, commit_transaction, catalog, open_wal, clear_wal, log,
  flush_header_pages, new_iterator, read_all, init_current_page, add_new_wal_record, append_record,
  next_header_page_if_full,
}
use graphflowdb.Wal.Record.{eq_wal_record, commit_record, catalog_record, new_node_index_id}
use graphflowdb.Wal.Record.Equality.{eq_wal_record_iff}
use graphflowdb.Wal.Append.{IsLog, log_all, records_of, log-IsLog}
use graphflowdb.Wal.Replay.{clear_wal-IsLog, read_all-log_all, open_wal-log_all}

fresh : Wal
unfolding open_wal init_current_page
fresh = open_wal 80 0 []

abbrev three_logs : List Log
three_logs = page_update (new_node_index_id false 7) 3 ∷ catalog ∷ commit_transaction 9 ∷ []

abbrev many : ℕ → List Log
many zero = commit_transaction 1 ∷ []
many (suc n) = catalog ∷ many n

-- 60 records go over two header pages, and all are read back.
spills_over : length (log_all 80 fresh (many 60)).pages ≡ 2
unfolding fresh log add_new_wal_record append_record next_header_page_if_full
spills_over = refl

eq_wal_record_iff_example :
    (eq_wal_record (commit_record 9) catalog_record ≡ true) ↔ (commit_record 9 ≡ catalog_record)
eq_wal_record_iff_example = eq_wal_record_iff (commit_record 9) catalog_record

log-IsLog_example :
    IsLog 80 (log 80 (clear_wal 80 fresh) (commit_transaction 9)) (commit_record 9 ∷ [])
log-IsLog_example =
    log-IsLog 80 (clear_wal 80 fresh) [] (commit_transaction 9) (omega arith) (omega arith)
      (unfold clear_wal init_current_page in omega arith) (clear_wal-IsLog 80 fresh)

read_all-log_all_example :
    read_all 80 (flush_header_pages (log_all 80 (clear_wal 80 fresh) three_logs)).pages 3 (
      new_iterator
        (flush_header_pages (log_all 80 (clear_wal 80 fresh) three_logs)).pages
        blank_page)
    ≡ some (records_of 80 (clear_wal 80 fresh) three_logs)
read_all-log_all_example =
    read_all-log_all 80 fresh three_logs 3 (omega arith) (omega arith) (omega arith) (omega arith)

open_wal-log_all_example :
    let logged = log_all 80 (clear_wal 80 fresh) three_logs in
    ((open_wal 80 3 (flush_header_pages logged).pages).is_last_logged_record_commit ≡ true)
    × (logged.is_last_logged_record_commit ≡ true)
open_wal-log_all_example =
    open_wal-log_all 80 fresh three_logs 3 (omega arith) (omega arith) (omega arith) (omega arith)
