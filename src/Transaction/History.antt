-- ===== src/Transaction/History.antt =====
-- Any history of calls by clients that pass on only transactions which they hold.
use graphflowdb.Base.{
  ℕ, ◌+◌, ◌*◌, ◌<◌, ◌≡◌, if◌then◌else◌, ◌↔◌, sym, ◌∙◌, true, List, [], ◌∷◌, arith,
}
use graphflowdb.Wal.{Wal}
use graphflowdb.Transaction.{
  Transaction, TransactionManager, free, is_read_only, is_write_transaction,
  thread_sleep_time_when_waiting_in_micros, commit_but_keep_active_write_transaction,
  manually_clear_active_write_transaction, ok, write_already_active, int64_max,
  new_transaction_manager, begin_write_transaction, begin_read_only_transaction, commit, rollback,
  allow_receiving_new_transactions,
  stop_new_transactions_and_wait_until_all_read_transactions_leave,
}
use graphflowdb.Transaction.Invariant.{
  holds, without, writer, Tracks, new-Tracks, begin_write-Tracks, begin_read_only-Tracks,
  commit-Tracks, rollback-Tracks, commit_but_keep-Tracks, manually_clear-Tracks,
}

module _ (record_size : ℕ) where
  -- The manager and the transactions held, after a history of successful calls. The id of each new
  -- transaction stays below INT64_MAX.
  pub data Reach (wal : Wal) (timeout : ℕ) : TransactionManager → List Transaction → Type 0 where
    here : Reach wal timeout (new_transaction_manager wal timeout) []
    begin_write :
        {m : TransactionManager} {live : List Transaction} (m' : TransactionManager)
        (t : Transaction)
        → Reach wal timeout m live
        → m.last_transaction_id + 1 < int64_max
        → begin_write_transaction m ≡ ok (t, m')
        → Reach wal timeout m' (t ∷ live)
    begin_read_only :
        {m : TransactionManager} {live : List Transaction} (m' : TransactionManager)
        (t : Transaction)
        → Reach wal timeout m live
        → m.last_transaction_id + 1 < int64_max
        → begin_read_only_transaction m ≡ ok (t, m')
        → Reach wal timeout m' (t ∷ live)
    commits :
        {m : TransactionManager} {live : List Transaction} (m' : TransactionManager)
        (t : Transaction)
        → Reach wal timeout m live
        → holds t live ≡ true
        → commit record_size m t ≡ ok m'
        → Reach wal timeout m' (without t live)
    rolls_back :
        {m : TransactionManager} {live : List Transaction} (m' : TransactionManager)
        (t : Transaction)
        → Reach wal timeout m live
        → holds t live ≡ true
        → rollback record_size m t ≡ ok m'
        → Reach wal timeout m' (without t live)
    commits_but_keeps :
        {m : TransactionManager} {live : List Transaction} (m' : TransactionManager)
        (t : Transaction)
        → Reach wal timeout m live
        → holds t live ≡ true
        → commit_but_keep_active_write_transaction record_size m t ≡ ok m'
        → Reach wal timeout m' (if is_read_only t then without t live else live)
    manually_clears :
        {m : TransactionManager} {live : List Transaction} (m' : TransactionManager)
        (t : Transaction)
        → Reach wal timeout m live
        → holds t live ≡ true
        → manually_clear_active_write_transaction m t ≡ ok m'
        → Reach wal timeout m' (if is_write_transaction t then without t live else live)
    stops :
        {m : TransactionManager} {live : List Transaction} (fuel : ℕ)
        → Reach wal timeout m live
        → m.check_point_wait_timeout_in_micros < fuel * thread_sleep_time_when_waiting_in_micros
        → Reach wal timeout
            (stop_new_transactions_and_wait_until_all_read_transactions_leave fuel m).1
            live
    allows :
        {m : TransactionManager} {live : List Transaction}
        → Reach wal timeout m live
        → Reach wal timeout (allow_receiving_new_transactions m) live

  stop-Tracks :
      (fuel : ℕ) (m : TransactionManager) (live : List Transaction)
      → Tracks m live
      → Tracks (stop_new_transactions_and_wait_until_all_read_transactions_leave fuel m).1 live
  unfolding stop_new_transactions_and_wait_until_all_read_transactions_leave
  stop-Tracks fuel m live k = record {
    readers = λ i. ground (arith, k.readers i);
    writers = λ i h. ground (arith, k.writers i);
    active = λ h. ground (arith, k.active);
    handed_out = λ t h. ground (arith, k.handed_out t);
    in_range = ground arith;
  }

  allow-Tracks :
      (m : TransactionManager) (live : List Transaction)
      → Tracks m live
      → Tracks (allow_receiving_new_transactions m) live
  unfolding allow_receiving_new_transactions
  allow-Tracks m live k = record {
    readers = k.readers;
    writers = k.writers;
    active = k.active;
    handed_out = k.handed_out;
    in_range = k.in_range;
  }

  module _ {wal : Wal} {timeout : ℕ} where
    pub Reach-Tracks :
        {m : TransactionManager} {live : List Transaction}
        → Reach wal timeout m live
        → Tracks m live
    Reach-Tracks here = new-Tracks wal timeout
    Reach-Tracks (begin_write {m} {live} m' t r room e) =
        begin_write-Tracks m m' live t room e (Reach-Tracks r)
    Reach-Tracks (begin_read_only {m} {live} m' t r room e) =
        begin_read_only-Tracks m m' live t room e (Reach-Tracks r)
    Reach-Tracks (commits {m} {live} m' t r held e) =
        commit-Tracks record_size m m' live t e held (Reach-Tracks r)
    Reach-Tracks (rolls_back {m} {live} m' t r held e) =
        rollback-Tracks record_size m m' live t e held (Reach-Tracks r)
    Reach-Tracks (commits_but_keeps {m} {live} m' t r held e) =
        commit_but_keep-Tracks record_size m m' live t e held (Reach-Tracks r)
    Reach-Tracks (manually_clears {m} {live} m' t r held e) =
        manually_clear-Tracks m m' live t e held (Reach-Tracks r)
    Reach-Tracks (stops {m} {live} fuel r enough) = stop-Tracks fuel m live (Reach-Tracks r)
    Reach-Tracks (allows {m} {live} r) = allow-Tracks m live (Reach-Tracks r)

    -- At most one write transaction is held.
    pub single_writer :
        {m : TransactionManager} {live : List Transaction} (i j : ℕ)
        → Reach wal timeout m live
        → holds (writer i) live ≡ true
        → holds (writer j) live ≡ true
        → i ≡ j
    single_writer i j r hi hj = sym ((Reach-Tracks r).writers i hi) ∙ (Reach-Tracks r).writers j hj

    -- After any history in which new transactions are not stopped, beginning a write transaction
    -- is refused exactly when one is held.
    pub begin_write_refused :
        {m : TransactionManager} {live : List Transaction}
        → Reach wal timeout m live
        → m.mtx_for_starting_new_transactions ≡ free
        → (begin_write_transaction m ≡ write_already_active)
          ↔ ((i : ℕ) × (holds (writer i) live ≡ true))
    unfolding begin_write_transaction
    begin_write_refused {m} {live} r receiving =
        let k = Reach-Tracks r in
        (
          λ e. (m.active_write_transaction_id, ground (arith, k.active)),
          λ (i, h). ground (arith, k.writers i, k.handed_out (writer i)),
        )
