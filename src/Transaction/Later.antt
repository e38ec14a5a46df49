-- ===== src/Transaction/Later.antt =====
-- The calls that leave new transactions stopped: all public functions of
-- src/transaction/transaction_manager.cpp but allowReceivingNewTransactions.
use graphflowdb.Base.{ℕ, ◌≡◌, refl, Bool, true, false, arith}
use graphflowdb.Transaction.{
  Transaction, TransactionManager, ok, ◌>>=◌, blocked, is_free, serialized, commit_or_rollback,
  commit, rollback, commit_but_keep_active_write_transaction,
  manually_clear_active_write_transaction, clear_active_write_transaction_if_write_transaction,
  begin_read_only_transaction, begin_write_transaction,
  stop_new_transactions_and_wait_until_all_read_transactions_leave,
}
use graphflowdb.Transaction.Invariant.{>>=-eq-ok, ok_injective}

module _ (record_size : ℕ) where
  -- A later state after calls that returned, without a call of allowReceivingNewTransactions. Begin
  -- calls are not among them: they do not return here.
  pub data Later (m : TransactionManager) : TransactionManager → Type 0 where
    now : Later m m
    commits :
        {m₁ : TransactionManager} (m₂ : TransactionManager) (t : Transaction)
        → Later m m₁
        → commit record_size m₁ t ≡ ok m₂
        → Later m m₂
    rolls_back :
        {m₁ : TransactionManager} (m₂ : TransactionManager) (t : Transaction)
        → Later m m₁
        → rollback record_size m₁ t ≡ ok m₂
        → Later m m₂
    commits_but_keeps :
        {m₁ : TransactionManager} (m₂ : TransactionManager) (t : Transaction)
        → Later m m₁
        → commit_but_keep_active_write_transaction record_size m₁ t ≡ ok m₂
        → Later m m₂
    manually_clears :
        {m₁ : TransactionManager} (m₂ : TransactionManager) (t : Transaction)
        → Later m m₁
        → manually_clear_active_write_transaction m₁ t ≡ ok m₂
        → Later m m₂
    stops :
        {m₁ : TransactionManager} (fuel : ℕ)
        → Later m m₁
        → Later m (stop_new_transactions_and_wait_until_all_read_transactions_leave fuel m₁).1

  abbrev IsStopped : TransactionManager → Type 0
  IsStopped m = is_free m.mtx_for_starting_new_transactions ≡ false

  release-IsStopped :
      (m m' : TransactionManager) (t : Transaction) (is_commit : Bool)
      → commit_or_rollback record_size m t is_commit ≡ ok m'
      → IsStopped m
      → IsStopped m'
  unfolding commit_or_rollback
  release-IsStopped m m' t is_commit e h = ground (arith, e, h)

  clear-IsStopped :
      (m : TransactionManager) (t : Transaction)
      → IsStopped m
      → IsStopped (clear_active_write_transaction_if_write_transaction m t)
  unfolding clear_active_write_transaction_if_write_transaction
  clear-IsStopped m t h = ground (arith, h)

  -- Commit and rollback after the mutex of the public functions.
  finish-IsStopped :
      (m m' : TransactionManager) (t : Transaction) (is_commit : Bool)
      → (do
        m₁ ← commit_or_rollback record_size m t is_commit
        ok (clear_active_write_transaction_if_write_transaction m₁ t))
        ≡ ok m'
      → IsStopped m
      → IsStopped m'
  finish-IsStopped m m' t is_commit e h =
      let (m₁, done, last) = >>=-eq-ok (commit_or_rollback record_size m t is_commit) _ e in
      rw (ok_injective last) at (clear-IsStopped m₁ t (release-IsStopped m m₁ t is_commit done h))

  stop-IsStopped :
      (fuel : ℕ) (m : TransactionManager)
      → IsStopped m
      → IsStopped (stop_new_transactions_and_wait_until_all_read_transactions_leave fuel m).1
  unfolding stop_new_transactions_and_wait_until_all_read_transactions_leave
  stop-IsStopped fuel m h = ground (arith, h)

  manually_clear-IsStopped :
      (m m' : TransactionManager) (t : Transaction)
      → manually_clear_active_write_transaction m t ≡ ok m'
      → IsStopped m
      → IsStopped m'
  unfolding manually_clear_active_write_transaction serialized
      clear_active_write_transaction_if_write_transaction
  manually_clear-IsStopped m m' t e h = ground (arith, e, h)

  Later-IsStopped : {m m' : TransactionManager} → Later m m' → IsStopped m → IsStopped m'
  unfolding commit rollback serialized commit_but_keep_active_write_transaction
  Later-IsStopped now h = h
  Later-IsStopped (commits {m₁} m₂ t l e) h =
      let (_, _, served) = >>=-eq-ok (serialized m₁) _ e in
      finish-IsStopped m₁ m₂ t true served (Later-IsStopped l h)
  Later-IsStopped (rolls_back {m₁} m₂ t l e) h =
      let (_, _, served) = >>=-eq-ok (serialized m₁) _ e in
      finish-IsStopped m₁ m₂ t false served (Later-IsStopped l h)
  Later-IsStopped (commits_but_keeps {m₁} m₂ t l e) h =
      let (_, _, served) = >>=-eq-ok (serialized m₁) _ e in
      release-IsStopped m₁ m₂ t true served (Later-IsStopped l h)
  Later-IsStopped (manually_clears {m₁} m₂ t l e) h =
      manually_clear-IsStopped m₁ m₂ t e (Later-IsStopped l h)
  Later-IsStopped (stops {m₁} fuel l) h = stop-IsStopped fuel m₁ (Later-IsStopped l h)

  -- While new transactions are stopped, and after any later calls, both begin calls wait.
  pub begin_blocked :
      {m : TransactionManager} (m' : TransactionManager)
      → Later m m'
      → is_free m.mtx_for_starting_new_transactions ≡ false
      → (begin_read_only_transaction m' ≡ blocked) × (begin_write_transaction m' ≡ blocked)
  unfolding begin_read_only_transaction begin_write_transaction
  begin_blocked m' l h = let stopped = Later-IsStopped l h in (rw stopped refl, rw stopped refl)
