-- ===== src/Transaction/Examples.antt =====
-- Runs of the transaction manager, and uses of its theorems.
use graphflowdb.Base.{◌+◌, ◌≡◌, ◌≢◌, refl, Bool, true, false, [], ◌∷◌, arith}
use graphflowdb.Wal.{Wal, open_wal}
use graphflowdb.Wal.Append.{IsLog}
use graphflowdb.Transaction.{
  Result, TransactionManager, free, locked, locked_and_awaited, ok, timeout, blocked, int64_max,
  new_transaction_manager, begin_write_transaction, begin_read_only_transaction,
  stop_new_transactions_and_wait_until_all_read_transactions_leave,
}
use graphflowdb.Transaction.Invariant.{writer}
use graphflowdb.Transaction.Later.{now}
use graphflowdb.Transaction.Checkpoint.{
  Updates, stop_lem, commit_and_checkpoint_or_rollback, commit_succeeds, commit_with_readers,
  rollback_succeeds,
}

wal : Wal
wal = open_wal 80 0 []

-- A manager with a timeout of 10ms.
started : TransactionManager
unfolding new_transaction_manager
started = new_transaction_manager wal 10000

writing : TransactionManager
unfolding started
writing = record started { last_transaction_id = 1; active_write_transaction_id = 1 }

both : TransactionManager
unfolding writing
both = record writing { last_transaction_id = 2; active_read_only_transaction_ids = 2 ∷ [] }

both_unawaited : both.mtx_for_starting_new_transactions ≢ locked_and_awaited
unfolding both writing started new_transaction_manager
both_unawaited e = cc

stop_lem_example :
    stop_new_transactions_and_wait_until_all_read_transactions_leave 101 both
    ≡ (timeout, record both { mtx_for_starting_new_transactions = locked })
unfolding both
stop_lem_example = stop_lem 101 both (omega arith) refl

abbrev no_updates : Updates
no_updates = record { node_tables = false; rel_tables = false; catalog = false }

abbrev nothing_to_prepare : Bool → Wal → Wal
nothing_to_prepare is_commit w = w

commit_succeeds_example :
    let out =
      commit_and_checkpoint_or_rollback 80 nothing_to_prepare 101 no_updates writing
        (writer 1)
        true
        false in
    (out.0 ≡ ok tt)
    × (out.1.active_write_transaction_id ≡ int64_max)
    × (out.1.mtx_for_starting_new_transactions ≡ free)
    × (out.1.last_commit_id ≡ writing.last_commit_id + 1)
    × (out.1.last_transaction_id ≡ writing.last_transaction_id)
    × IsLog 80 out.1.wal []
unfolding writing
commit_succeeds_example =
    commit_succeeds 80 nothing_to_prepare 101 no_updates writing (writer 1) (omega arith) refl refl
      refl refl

abbrev timed_out : Result (Unit {0}) × TransactionManager
timed_out =
    commit_and_checkpoint_or_rollback 80 nothing_to_prepare 101 no_updates both (writer 1) true
      false

abbrev rolled_back : Result (Unit {0}) × TransactionManager
rolled_back =
    commit_and_checkpoint_or_rollback 80 nothing_to_prepare 101 no_updates timed_out.1 (writer 1)
      false false

commit_with_readers_example :
    (timed_out.0 ≡ timeout)
    × (timed_out.1.last_commit_id ≡ both.last_commit_id)
    × (timed_out.1.active_write_transaction_id ≡ 1)
    × (begin_read_only_transaction timed_out.1 ≡ blocked)
    × (begin_write_transaction timed_out.1 ≡ blocked)
    × (rolled_back.0 ≡ ok tt)
    × (rolled_back.1.active_write_transaction_id ≡ int64_max)
    × (begin_read_only_transaction rolled_back.1 ≡ blocked)
    × (begin_write_transaction rolled_back.1 ≡ blocked)
unfolding both
commit_with_readers_example =
    commit_with_readers 80 nothing_to_prepare 101 no_updates no_updates both (writer 1) timed_out.1
      rolled_back.1 (omega arith) refl (λ e. cc) refl refl now now

rollback_succeeds_example :
    let out =
      commit_and_checkpoint_or_rollback 80 nothing_to_prepare 0 no_updates both
        (writer 1)
        false
        false in
    (out.0 ≡ ok tt)
    × (out.1.active_write_transaction_id ≡ int64_max)
    × (out.1.mtx_for_starting_new_transactions ≡ both.mtx_for_starting_new_transactions)
    × (out.1.active_read_only_transaction_ids ≡ both.active_read_only_transaction_ids)
    × (out.1.last_commit_id ≡ both.last_commit_id)
    × IsLog 80 out.1.wal []
unfolding both
rollback_succeeds_example =
    rollback_succeeds 80 nothing_to_prepare 0 no_updates both (writer 1) both_unawaited refl refl
