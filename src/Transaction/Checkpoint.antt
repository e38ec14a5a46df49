-- ===== src/Transaction/Checkpoint.antt =====
-- Stopping new transactions, and Database::commitAndCheckpointOrRollback of src/main/include/
-- database.h over the manager.
--
-- Of the storage manager and the catalog the function asks whether they have updates; what
-- prepareListsToCommitOrRollbackIfNecessary logs is a parameter, a function of the WAL. The files
-- that are written beside the log, and what the replayer does to the storage, are not modelled.
use graphflowdb.Base.{
  ℕ, zero, suc, ◌+◌, ◌*◌, ◌≤◌, ◌<◌, ◌≡◌, ◌≢◌, refl, Bool, true, false, ◌||◌, List, [], ◌∷◌, some,
  arith, if◌then◌else◌,
}
use graphflowdb.Wal.{Wal, clear_wal, flush_header_pages, log, log_commit, table_statistics, Log}
use graphflowdb.Wal.Append.{IsLog}
use graphflowdb.Wal.Replay.{clear_wal-IsLog}
use graphflowdb.Transaction.Invariant.{unawaited}
use graphflowdb.Transaction.Later.{Later, begin_blocked}
use graphflowdb.Transaction.{
  write, free, locked, locked_and_awaited, Transaction, TransactionManager, Result, ok, timeout,
  blocked, out_of_fuel, write_already_active, wrong_write_transaction, int64_max, is_empty,
  thread_sleep_time_when_waiting_in_micros, begin_write_transaction, begin_read_only_transaction,
  commit_but_keep_active_write_transaction, manually_clear_active_write_transaction,
  allow_receiving_new_transactions, wait_loop,
  stop_new_transactions_and_wait_until_all_read_transactions_leave,
}

-- The loop ends: at once without readers, and otherwise at the first round past the timeout.
wait_loop-nil :
    (fuel : ℕ) (timeout_in_micros waited : ℕ)
    → 0 < fuel
    → wait_loop fuel [] timeout_in_micros waited ≡ some true
unfolding wait_loop
wait_loop-nil zero timeout_in_micros waited h = absurd (omega arith)
wait_loop-nil (suc fuel) timeout_in_micros waited h = refl

wait_loop-cons :
    (fuel : ℕ) (reader : ℕ) (readers : List ℕ) (timeout_in_micros waited : ℕ)
    → timeout_in_micros < (waited + fuel) * thread_sleep_time_when_waiting_in_micros
    → waited * thread_sleep_time_when_waiting_in_micros ≤ timeout_in_micros
    → wait_loop fuel (reader ∷ readers) timeout_in_micros waited ≡ some false
unfolding wait_loop
wait_loop-cons zero reader readers limit waited h le = absurd (omega arith)
wait_loop-cons (suc fuel) reader readers limit waited h le =
    ground (arith, wait_loop-cons fuel reader readers limit (waited + 1))

wait_loop_lem :
    (fuel : ℕ) (readers : List ℕ) (timeout_in_micros : ℕ)
    → timeout_in_micros < fuel * thread_sleep_time_when_waiting_in_micros
    → wait_loop fuel readers timeout_in_micros 0 ≡ some (is_empty readers)
wait_loop_lem fuel [] limit h = wait_loop-nil fuel limit 0 (omega arith)
wait_loop_lem fuel (r ∷ rs) limit h = wait_loop-cons fuel r rs limit 0 (omega arith) (omega arith)

-- Stopping new transactions, when they are received, ends, given rounds for more than the timeout.
-- With no read-only transaction active it succeeds; with one it throws the timeout. In both cases
-- new transactions are stopped afterwards, and nothing else of the manager is changed.
pub stop_lem :
    (fuel : ℕ) (m : TransactionManager)
    → m.check_point_wait_timeout_in_micros < fuel * thread_sleep_time_when_waiting_in_micros
    → m.mtx_for_starting_new_transactions ≡ free
    → stop_new_transactions_and_wait_until_all_read_transactions_leave fuel m ≡ (
      if is_empty m.active_read_only_transaction_ids then ok tt else timeout,
      record m { mtx_for_starting_new_transactions = locked },
    )
unfolding stop_new_transactions_and_wait_until_all_read_transactions_leave
stop_lem fuel m enough receiving = ground (
  arith,
  wait_loop_lem fuel m.active_read_only_transaction_ids m.check_point_wait_timeout_in_micros,
)

-- hasUpdates of the node and of the rel statistics, and of the catalog.
pub record Updates : Type 0 where
  pub node_tables : Bool
  pub rel_tables : Bool
  pub catalog : Bool

-- The state that a call leaves, also when it throws.
abbrev pub Outcome : Type 0
Outcome = Result (Unit {0}) × TransactionManager

-- A call of the manager that throws leaves the manager as it was.
abbrev and_then :
    TransactionManager → Result TransactionManager → (TransactionManager → Outcome) → Outcome
and_then m (ok m') k = k m'
and_then m write_already_active k = (write_already_active, m)
and_then m wrong_write_transaction k = (wrong_write_transaction, m)
and_then m timeout k = (timeout, m)
and_then m blocked k = (blocked, m)
and_then m out_of_fuel k = (out_of_fuel, m)

-- The same for the call that changes the manager even when it throws.
abbrev after_stop : Outcome → (TransactionManager → Outcome) → Outcome
after_stop (ok u, m) k = k m
after_stop (write_already_active, m) k = (write_already_active, m)
after_stop (e, m) k = (e, m)

module _ (record_size : ℕ) (prepare_lists : Bool → Wal → Wal) where
  log_updates : Updates → Wal → Wal
  log_updates u w =
      let w₁ : Wal =
        if u.node_tables || u.rel_tables
        then log record_size w (table_statistics u.node_tables)
        else w in
      if u.catalog then log record_size w₁ Log.catalog else w₁

  -- The part after the commit record and the flush.
  checkpoint_and_finish : Bool → Transaction → TransactionManager → Outcome
  checkpoint_and_finish skip_checkpoint t m =
      let cleared : TransactionManager = record m { wal = clear_wal record_size m.wal } in
      if skip_checkpoint
      then (ok tt, allow_receiving_new_transactions m)
      else and_then cleared (manually_clear_active_write_transaction cleared t)
          (λ m'. (ok tt, allow_receiving_new_transactions m'))

  rollback_and_finish : Bool → Transaction → TransactionManager → Outcome
  rollback_and_finish skip_checkpoint t m =
      let cleared : TransactionManager = record m { wal = clear_wal record_size m.wal } in
      if skip_checkpoint
      then (ok tt, record m { wal = flush_header_pages m.wal })
      else and_then cleared (manually_clear_active_write_transaction cleared t) (λ m'. (ok tt, m'))

  commit_and_finish : ℕ → Bool → Transaction → TransactionManager → Outcome
  unfolding checkpoint_and_finish commit_but_keep_active_write_transaction
  commit_and_finish fuel skip_checkpoint t m =
      after_stop (stop_new_transactions_and_wait_until_all_read_transactions_leave fuel m) λ m₂.
        and_then m₂ (commit_but_keep_active_write_transaction record_size m₂ t) λ m₃.
          checkpoint_and_finish skip_checkpoint t (record m₃ { wal = flush_header_pages m₃.wal })

  prepared : Updates → TransactionManager → Bool → TransactionManager
  unfolding log_updates
  prepared u m is_commit = record m { wal = prepare_lists is_commit (log_updates u m.wal) }

  pub commit_and_checkpoint_or_rollback :
      ℕ → Updates → TransactionManager → Transaction → Bool → Bool → Outcome
  unfolding prepared commit_and_finish rollback_and_finish
  commit_and_checkpoint_or_rollback fuel u m t is_commit skip_checkpoint =
      if is_commit
      then commit_and_finish fuel skip_checkpoint t (prepared u m is_commit)
      else rollback_and_finish skip_checkpoint t (prepared u m is_commit)

  commit_and_finish_lem :
      (fuel : ℕ) (m : TransactionManager) (t : Transaction)
      → m.check_point_wait_timeout_in_micros < fuel * thread_sleep_time_when_waiting_in_micros
      → m.mtx_for_starting_new_transactions ≡ free
      → m.active_read_only_transaction_ids ≡ []
      → t.type ≡ write
      → m.active_write_transaction_id ≡ t.id
      → commit_and_finish fuel false t m ≡ (
        ok tt,
        record m {
          wal = clear_wal record_size (flush_header_pages (log_commit record_size m.wal t.id));
          active_write_transaction_id = int64_max;
          last_commit_id = m.last_commit_id + 1;
          mtx_for_starting_new_transactions = free;
        },
      )
  unfolding commit_and_finish manually_clear_active_write_transaction
      allow_receiving_new_transactions
  commit_and_finish_lem fuel m t enough receiving alone w active =
      ground (arith, stop_lem fuel m enough receiving)

  timeout_lem :
      (fuel : ℕ) (m : TransactionManager) (t : Transaction)
      → m.check_point_wait_timeout_in_micros < fuel * thread_sleep_time_when_waiting_in_micros
      → m.mtx_for_starting_new_transactions ≡ free
      → m.active_read_only_transaction_ids ≢ []
      → commit_and_finish fuel false t m
        ≡ (timeout, record m { mtx_for_starting_new_transactions = locked })
  unfolding commit_and_finish
  timeout_lem fuel m t enough receiving readers = ground (arith, stop_lem fuel m enough receiving)

  rollback_and_finish_lem :
      (m : TransactionManager) (t : Transaction)
      → m.mtx_for_starting_new_transactions ≢ locked_and_awaited
      → t.type ≡ write
      → m.active_write_transaction_id ≡ t.id
      → rollback_and_finish false t m ≡ (
        ok tt,
        record m { wal = clear_wal record_size m.wal; active_write_transaction_id = int64_max },
      )
  unfolding rollback_and_finish manually_clear_active_write_transaction
  rollback_and_finish_lem m t free_of w active =
      ground (arith, unawaited m.mtx_for_starting_new_transactions free_of)

  -- Committing the active write transaction while no read-only transaction is active and new
  -- transactions are received, given rounds for more than the timeout, succeeds: the commit is
  -- counted, no write transaction is active any more, new transactions are received, and the log is
  -- empty.
  pub commit_succeeds :
      (fuel : ℕ) (u : Updates) (m : TransactionManager) (t : Transaction)
      → m.check_point_wait_timeout_in_micros < fuel * thread_sleep_time_when_waiting_in_micros
      → m.mtx_for_starting_new_transactions ≡ free
      → m.active_read_only_transaction_ids ≡ []
      → t.type ≡ write
      → m.active_write_transaction_id ≡ t.id
      → let out = commit_and_checkpoint_or_rollback fuel u m t true false in
        (out.0 ≡ ok tt)
        × (out.1.active_write_transaction_id ≡ int64_max)
        × (out.1.mtx_for_starting_new_transactions ≡ free)
        × (out.1.last_commit_id ≡ m.last_commit_id + 1)
        × (out.1.last_transaction_id ≡ m.last_transaction_id)
        × IsLog record_size out.1.wal []
  unfolding prepared commit_and_checkpoint_or_rollback
  commit_succeeds fuel u m t enough receiving alone w active =
      let e = commit_and_finish_lem fuel (prepared u m true) t enough receiving alone w active in
      rw e (refl, refl, refl, refl, refl, clear_wal-IsLog record_size _)

  -- Committing the active write transaction while a read-only one is active and new transactions
  -- are received, given rounds for more than the timeout, throws the timeout: nothing is committed
  -- and the write transaction stays active, but every begin call waits, also after any later public
  -- calls but allowReceivingNewTransactions. When the write transaction is then rolled back, this
  -- succeeds, and still every begin call waits, also after any later such calls.
  pub commit_with_readers :
      (fuel : ℕ) (u v : Updates) (m : TransactionManager) (t : Transaction)
      (after_timeout after_rollback : TransactionManager)
      → m.check_point_wait_timeout_in_micros < fuel * thread_sleep_time_when_waiting_in_micros
      → m.mtx_for_starting_new_transactions ≡ free
      → m.active_read_only_transaction_ids ≢ []
      → t.type ≡ write
      → m.active_write_transaction_id ≡ t.id
      → Later record_size (commit_and_checkpoint_or_rollback fuel u m t true false).1 after_timeout
      → Later record_size
          (commit_and_checkpoint_or_rollback fuel v
            (commit_and_checkpoint_or_rollback fuel u m t true false).1
            t
            false
            false).1
          after_rollback
      → let out = commit_and_checkpoint_or_rollback fuel u m t true false in
        let back = commit_and_checkpoint_or_rollback fuel v out.1 t false false in
        (out.0 ≡ timeout)
        × (out.1.last_commit_id ≡ m.last_commit_id)
        × (out.1.active_write_transaction_id ≡ t.id)
        × (begin_read_only_transaction after_timeout ≡ blocked)
        × (begin_write_transaction after_timeout ≡ blocked)
        × (back.0 ≡ ok tt)
        × (back.1.active_write_transaction_id ≡ int64_max)
        × (begin_read_only_transaction after_rollback ≡ blocked)
        × (begin_write_transaction after_rollback ≡ blocked)
  unfolding prepared commit_and_checkpoint_or_rollback
  commit_with_readers fuel u v m t after_timeout after_rollback enough receiving readers w active l₁
        l₂ =
      let e = timeout_lem fuel (prepared u m true) t enough receiving readers in
      let stopped : TransactionManager = record (prepared u m true) {
        mtx_for_starting_new_transactions = locked;
      } in
      let e' = rollback_and_finish_lem (prepared v stopped false) t (λ e. cc) w active in
      let k₁ = begin_blocked record_size after_timeout l₁ (rw e refl) in
      let k₂ = begin_blocked record_size after_rollback l₂ (rw (e, e') refl) in
      rw (e, e') (refl, refl, active, k₁.0, k₁.1, refl, refl, k₂.0, k₂.1)

  -- Rolling back the active write transaction succeeds, whatever else is active, unless a second stop
  -- of new transactions waits and holds the mutex of the public functions: afterwards no write
  -- transaction is active any more, the log is empty, and no commit is counted. Whether new
  -- transactions are received and which read-only transactions are active does not change.
  pub rollback_succeeds :
      (fuel : ℕ) (u : Updates) (m : TransactionManager) (t : Transaction)
      → m.mtx_for_starting_new_transactions ≢ locked_and_awaited
      → t.type ≡ write
      → m.active_write_transaction_id ≡ t.id
      → let out = commit_and_checkpoint_or_rollback fuel u m t false false in
        (out.0 ≡ ok tt)
        × (out.1.active_write_transaction_id ≡ int64_max)
        × (out.1.mtx_for_starting_new_transactions ≡ m.mtx_for_starting_new_transactions)
        × (out.1.active_read_only_transaction_ids ≡ m.active_read_only_transaction_ids)
        × (out.1.last_commit_id ≡ m.last_commit_id)
        × IsLog record_size out.1.wal []
  unfolding prepared commit_and_checkpoint_or_rollback
  rollback_succeeds fuel u m t free_of w active =
      rw (rollback_and_finish_lem (prepared u m false) t free_of w active)
        (refl, refl, refl, refl, refl, clear_wal-IsLog record_size _)
