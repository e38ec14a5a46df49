-- ===== src/Transaction.antt =====
-- The transaction manager: src/transaction/transaction_manager.cpp, src/transaction/include/
-- transaction_manager.h and src/transaction/include/transaction.h, and the write-transaction
-- protocol of src/main/include/database.h.
--
-- A public function runs under mtxForSerializingPublicFunctionCalls, so it is one step here. A call
-- that waits for a mutex is `blocked`. A second call of stopNewTransactionsAndWaitUntilAllRead-
-- TransactionsLeave waits for mtxForStartingNewTransactions and holds the mutex of the public
-- functions meanwhile: the state is then `locked_and_awaited`, in which every other public function
-- is blocked. When the awaited mutex is unlocked, it goes to that call, whose wait for the readers
-- ends with the mutex locked, whether it throws or not. A `Transaction*` is its type and id. Transaction ids do not wrap:
-- INT64_MAX, which stands for "no write transaction", is kept as a number, and the theorems bound
-- the ids.
pub mod Invariant
pub mod History
pub mod Later
pub mod Checkpoint
mod Examples
use graphflowdb.Base.{
  ℕ, zero, suc, ◌+◌, ◌*◌, ◌^◌, ◌-◌, ◌≡◌, Bool, true, false, not, ◌&&◌, List, [], ◌∷◌, Option, none,
  some, ◌==◌, ltb, if◌then◌else◌, insert, erase,
}
use graphflowdb.Wal.{Wal, log_commit}

pub data TransactionType : Type 0 where
  read_only write : TransactionType

pub record Transaction : Type 0 where
  pub type : TransactionType
  pub id : ℕ

abbrev pub is_read_only : Transaction → Bool
is_read_only t = elim (t.type) [ read_only ↦ true | write ↦ false ]

abbrev pub is_write_transaction : Transaction → Bool
is_write_transaction t = elim (t.type) [ read_only ↦ false | write ↦ true ]

abbrev pub int64_max : ℕ
int64_max = 2 ^ 63 - 1

abbrev pub thread_sleep_time_when_waiting_in_micros : ℕ
thread_sleep_time_when_waiting_in_micros = 100

-- mtxForStartingNewTransactions, and whether a call that holds the mutex of the public functions
-- waits for it.
pub data NewTransactionsMutex : Type 0 where
  free locked locked_and_awaited : NewTransactionsMutex

abbrev pub is_free : NewTransactionsMutex → Bool
is_free mtx = elim mtx [ free ↦ true | _ ↦ false ]

abbrev pub is_awaited : NewTransactionsMutex → Bool
is_awaited mtx = elim mtx [ locked_and_awaited ↦ true | _ ↦ false ]

pub record TransactionManager : Type 0 where
  pub wal : Wal
  pub active_write_transaction_id : ℕ
  pub active_read_only_transaction_ids : List ℕ
  pub last_transaction_id : ℕ
  pub last_commit_id : ℕ
  pub mtx_for_starting_new_transactions : NewTransactionsMutex
  pub check_point_wait_timeout_in_micros : ℕ

-- The three causes of TransactionManagerException; a call that waits for a mutex; and a wait that ran out of the fuel of the model.
pub data Result {ℓ} (A : Type ℓ) : Type ℓ where
  ok : A → Result A
  write_already_active wrong_write_transaction timeout blocked out_of_fuel : Result A

infixl 5 ◌>>=◌
abbrev pub ◌>>=◌ {ℓ κ} : {A : Type ℓ} {B : Type κ} → Result A → (A → Result B) → Result B
ok a >>= f = f a
write_already_active >>= f = write_already_active
wrong_write_transaction >>= f = wrong_write_transaction
timeout >>= f = timeout
blocked >>= f = blocked
out_of_fuel >>= f = out_of_fuel

pub new_transaction_manager : Wal → ℕ → TransactionManager
new_transaction_manager wal timeout_in_micros = record {
  wal = wal;
  active_write_transaction_id = int64_max;
  active_read_only_transaction_ids = [];
  last_transaction_id = 0;
  last_commit_id = 0;
  mtx_for_starting_new_transactions = free;
  check_point_wait_timeout_in_micros = timeout_in_micros;
}

abbrev pub has_active_write_transaction : TransactionManager → Bool
has_active_write_transaction m = not (m.active_write_transaction_id == int64_max)

pub begin_write_transaction : TransactionManager → Result (Transaction × TransactionManager)
begin_write_transaction m =
    let next : ℕ = m.last_transaction_id + 1 in
    if not (is_free m.mtx_for_starting_new_transactions)
    then blocked
    else if has_active_write_transaction m
    then write_already_active
    else ok (
      record { type = write; id = next },
      record m { last_transaction_id = next; active_write_transaction_id = next },
    )

pub begin_read_only_transaction : TransactionManager → Result (Transaction × TransactionManager)
begin_read_only_transaction m =
    let next : ℕ = m.last_transaction_id + 1 in
    if not (is_free m.mtx_for_starting_new_transactions)
    then blocked
    else ok (
      record { type = read_only; id = next },
      record m {
        last_transaction_id = next;
        active_read_only_transaction_ids = insert next m.active_read_only_transaction_ids;
      },
    )

-- The lock of mtxForSerializingPublicFunctionCalls.
pub serialized : TransactionManager → Result (Unit {0})
serialized m = if is_awaited m.mtx_for_starting_new_transactions then blocked else ok tt

pub assert_active_write_transaction_is_correct :
    TransactionManager → Transaction → Result (Unit {0})
assert_active_write_transaction_is_correct m t =
    if not (m.active_write_transaction_id == t.id) then wrong_write_transaction else ok tt

pub clear_active_write_transaction_if_write_transaction :
    TransactionManager → Transaction → TransactionManager
clear_active_write_transaction_if_write_transaction m t =
    if is_write_transaction t then record m { active_write_transaction_id = int64_max } else m

module _ (record_size : ℕ) where
  pub commit_or_rollback : TransactionManager → Transaction → Bool → Result TransactionManager
  unfolding assert_active_write_transaction_is_correct
  commit_or_rollback m t is_commit =
      if is_read_only t
      then ok (record m {
        active_read_only_transaction_ids = erase t.id m.active_read_only_transaction_ids;
      })
      else do
        _ ← assert_active_write_transaction_is_correct m t
        ok (
            if is_commit
            then record m {
              wal = log_commit record_size m.wal t.id;
              last_commit_id = m.last_commit_id + 1;
            }
            else m)

  pub commit_but_keep_active_write_transaction :
      TransactionManager → Transaction → Result TransactionManager
  unfolding serialized commit_or_rollback
  commit_but_keep_active_write_transaction m t = do _ ← serialized m; commit_or_rollback m t true

  pub commit : TransactionManager → Transaction → Result TransactionManager
  unfolding serialized commit_or_rollback clear_active_write_transaction_if_write_transaction
  commit m t = do
    _ ← serialized m
    m' ← commit_or_rollback m t true
    ok (clear_active_write_transaction_if_write_transaction m' t)

  pub rollback : TransactionManager → Transaction → Result TransactionManager
  unfolding serialized commit_or_rollback clear_active_write_transaction_if_write_transaction
  rollback m t = do
    _ ← serialized m
    m' ← commit_or_rollback m t false
    ok (clear_active_write_transaction_if_write_transaction m' t)

pub manually_clear_active_write_transaction :
    TransactionManager → Transaction → Result TransactionManager
unfolding serialized assert_active_write_transaction_is_correct
    clear_active_write_transaction_if_write_transaction
manually_clear_active_write_transaction m t = do
  _ ← serialized m
  _ ← assert_active_write_transaction_is_correct m t
  ok (clear_active_write_transaction_if_write_transaction m t)

pub allow_receiving_new_transactions : TransactionManager → TransactionManager
allow_receiving_new_transactions m = record m {
  mtx_for_starting_new_transactions =
      if is_awaited m.mtx_for_starting_new_transactions then locked else free;
}

abbrev pub is_empty : List ℕ → Bool
is_empty [] = true
is_empty (x ∷ xs) = false

-- The wait loop. The function holds mtxForSerializingPublicFunctionCalls while it sleeps, so the
-- set of readers does not change in it. The fuel bounds the rounds; `none` means it ran out.
pub wait_loop : ℕ → List ℕ → ℕ → ℕ → Option Bool
wait_loop zero readers timeout_in_micros waited = none
wait_loop (suc fuel) readers timeout_in_micros waited =
    let again = wait_loop fuel readers timeout_in_micros (waited + 1) in
    if is_empty readers
    then some true
    else if ltb timeout_in_micros ((waited + 1) * thread_sleep_time_when_waiting_in_micros)
    then some false
    else again

-- The mutex is locked before the loop, and stays locked when the loop throws. A second call waits
-- for the mutex, and a third one for the mutex of the public functions.
pub stop_new_transactions_and_wait_until_all_read_transactions_leave :
    ℕ → TransactionManager → Result (Unit {0}) × TransactionManager
stop_new_transactions_and_wait_until_all_read_transactions_leave fuel m =
    let m' : TransactionManager = record m { mtx_for_starting_new_transactions = locked } in
    if not (is_free m.mtx_for_starting_new_transactions)
    then (blocked, record m { mtx_for_starting_new_transactions = locked_and_awaited })
    else elim (wait_loop fuel m.active_read_only_transaction_ids
        m.check_point_wait_timeout_in_micros 0) [
          | none ↦ (out_of_fuel, m')
          | some true ↦ (ok tt, m')
          | some false ↦ (timeout, m')
        ]
