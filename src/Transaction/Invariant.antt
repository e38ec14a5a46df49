-- ===== src/Transaction/Invariant.antt =====
-- The transactions that clients hold, as a list beside the manager, and what the manager knows of
-- them.
use graphflowdb.Base.{
  ℕ, ◌+◌, ◌≤◌, ◌<◌, ◌≡◌, ◌≢◌, refl, inl, inr, Bool, true, false, ◌&&◌, List, [], ◌∷◌, arith, ◌==◌,
  if◌then◌else◌, contains, erase, contains-insert, contains-erase, Bool-cases,
}
use graphflowdb.Wal.{Wal, log_commit}
use graphflowdb.Transaction.{
  NewTransactionsMutex, free, locked, locked_and_awaited, is_awaited, TransactionType, read_only,
  write, Transaction, TransactionManager, Result, ok, write_already_active, ◌>>=◌, int64_max,
  new_transaction_manager, begin_write_transaction, begin_read_only_transaction, commit_or_rollback,
  commit, rollback, serialized, is_read_only, is_write_transaction,
  commit_but_keep_active_write_transaction, manually_clear_active_write_transaction,
  clear_active_write_transaction_if_write_transaction,
}

pub unawaited : (mtx : NewTransactionsMutex) → mtx ≢ locked_and_awaited → is_awaited mtx ≡ false
unawaited free h = refl
unawaited locked h = refl
unawaited locked_and_awaited h = absurd (h refl)

abbrev pub eq_type : TransactionType → TransactionType → Bool
eq_type read_only read_only = true
eq_type write write = true
eq_type _ _ = false

abbrev pub same : Transaction → Transaction → Bool
same t u = eq_type t.type u.type && t.id == u.id

abbrev pub holds : Transaction → List Transaction → Bool
holds t [] = false
holds t (u ∷ us) = if same u t then true else holds t us

abbrev pub without : Transaction → List Transaction → List Transaction
without t [] = []
without t (u ∷ us) = if same u t then without t us else u ∷ without t us

pub holds-without :
    (t u : Transaction) (live : List Transaction)
    → holds u (without t live) ≡ (if same t u then false else holds u live)
holds-without t u [] = ground arith
holds-without t u (v ∷ live) = ground (arith, holds-without t u live)

pub >>=-eq-ok {ℓ κ} :
    {A : Type ℓ} {B : Type κ} (r : Result A) (f : A → Result B) {b : B}
    → (r >>= f) ≡ ok b
    → (a : A) × (r ≡ ok a) × (f a ≡ ok b)
>>=-eq-ok (ok a) f h = (a, refl, h)
>>=-eq-ok write_already_active f h = cc
>>=-eq-ok _ f h = cc

pub ok_injective {ℓ} : {A : Type ℓ} {a b : A} → ok a ≡ ok b → a ≡ b
ok_injective h = cc

abbrev pub reader : ℕ → Transaction
reader i = record { type = read_only; id = i }

abbrev pub writer : ℕ → Transaction
writer i = record { type = write; id = i }

-- The manager's two fields say which transactions are held, and their ids have been handed out.
pub record Tracks (m : TransactionManager) (live : List Transaction) : Type 0 where
  pub readers : (i : ℕ) → contains i m.active_read_only_transaction_ids ≡ holds (reader i) live
  pub writers : (i : ℕ) → holds (writer i) live ≡ true → m.active_write_transaction_id ≡ i
  pub active :
      m.active_write_transaction_id ≢ int64_max
      → holds (writer m.active_write_transaction_id) live ≡ true
  pub handed_out :
      (t : Transaction) → holds t live ≡ true → (1 ≤ t.id) × (t.id ≤ m.last_transaction_id)
  pub in_range : m.last_transaction_id < int64_max

pub new-Tracks : (wal : Wal) (timeout : ℕ) → Tracks (new_transaction_manager wal timeout) []
unfolding new_transaction_manager
new-Tracks wal timeout = record {
  readers = λ i. refl;
  writers = λ i h. cc;
  active = λ h. absurd (h refl);
  handed_out = λ t h. cc;
  in_range = omega arith;
}

-- A transaction whose id has not been handed out is not held.
fresh :
    (m : TransactionManager) (live : List Transaction) (t : Transaction)
    → Tracks m live
    → m.last_transaction_id < t.id
    → holds t live ≡ false
fresh m live t k h = elim (Bool-cases (holds t live)) [
  | inl held ↦ absurd (omega (arith, k.handed_out t held))
  | inr unheld ↦ unheld
]

pub begin_write-Tracks :
    (m m' : TransactionManager) (live : List Transaction) (t : Transaction)
    → m.last_transaction_id + 1 < int64_max
    → begin_write_transaction m ≡ ok (t, m')
    → Tracks m live
    → Tracks m' (t ∷ live)
unfolding begin_write_transaction
begin_write-Tracks m m' live t room e k = record {
  readers = λ i. ground (arith, k.readers i);
  writers = λ i h. ground (arith, k.writers i, k.handed_out (writer i));
  active = λ h. ground arith;
  handed_out = λ u h. ground (arith, k.handed_out u);
  in_range = ground arith;
}

pub begin_read_only-Tracks :
    (m m' : TransactionManager) (live : List Transaction) (t : Transaction)
    → m.last_transaction_id + 1 < int64_max
    → begin_read_only_transaction m ≡ ok (t, m')
    → Tracks m live
    → Tracks m' (t ∷ live)
unfolding begin_read_only_transaction
begin_read_only-Tracks m m' live t room e k = record {
  readers = λ i. ground (
    arith,
    contains-insert (m.last_transaction_id + 1) i m.active_read_only_transaction_ids,
    k.readers i,
  );
  writers = λ i h. ground (arith, k.writers i);
  active = λ h. ground (arith, k.active);
  handed_out = λ u h. ground (arith, k.handed_out u);
  in_range = ground arith;
}

module _ (record_size : ℕ) where
  -- What a commit or a rollback of a held transaction leaves.
  release-Tracks :
      (m m' : TransactionManager) (live : List Transaction) (t : Transaction) (is_commit : Bool)
      → commit_or_rollback record_size m t is_commit ≡ ok m'
      → holds t live ≡ true
      → Tracks m live
      → Tracks (clear_active_write_transaction_if_write_transaction m' t) (without t live)
  unfolding commit_or_rollback clear_active_write_transaction_if_write_transaction
  release-Tracks m m' live t is_commit e held k = record {
    readers = λ i. ground (
      arith,
      contains-erase t.id i m.active_read_only_transaction_ids,
      holds-without t (reader i) live,
      k.readers i,
    );
    writers = λ i h. ground (arith, holds-without t (writer i) live, k.writers i, k.writers t.id);
    active =
        λ h. ground (arith, holds-without t (writer m.active_write_transaction_id) live, k.active);
    handed_out = λ u h. ground (arith, holds-without t u live, k.handed_out u);
    in_range = ground (arith, k.in_range);
  }

  pub commit-Tracks :
      (m m' : TransactionManager) (live : List Transaction) (t : Transaction)
      → commit record_size m t ≡ ok m'
      → holds t live ≡ true
      → Tracks m live
      → Tracks m' (without t live)
  unfolding commit
  commit-Tracks m m' live t e held k =
      let (_, _, served) = >>=-eq-ok (serialized m) _ e in
      let (m₁, done, last) = >>=-eq-ok (commit_or_rollback record_size m t true) _ served in
      rw (ok_injective last) at (release-Tracks m m₁ live t true done held k)

  pub rollback-Tracks :
      (m m' : TransactionManager) (live : List Transaction) (t : Transaction)
      → rollback record_size m t ≡ ok m'
      → holds t live ≡ true
      → Tracks m live
      → Tracks m' (without t live)
  unfolding rollback
  rollback-Tracks m m' live t e held k =
      let (_, _, served) = >>=-eq-ok (serialized m) _ e in
      let (m₁, done, last) = >>=-eq-ok (commit_or_rollback record_size m t false) _ served in
      rw (ok_injective last) at (release-Tracks m m₁ live t false done held k)

  -- A commit that keeps the write transaction: a reader is no longer held.
  pub commit_but_keep-Tracks :
      (m m' : TransactionManager) (live : List Transaction) (t : Transaction)
      → commit_but_keep_active_write_transaction record_size m t ≡ ok m'
      → holds t live ≡ true
      → Tracks m live
      → Tracks m' (if is_read_only t then without t live else live)
  unfolding commit_but_keep_active_write_transaction serialized commit_or_rollback
  commit_but_keep-Tracks m m' live t e held k = record {
    readers = λ i. ground (
      arith,
      contains-erase t.id i m.active_read_only_transaction_ids,
      holds-without t (reader i) live,
      k.readers i,
    );
    writers = λ i h. ground (arith, holds-without t (writer i) live, k.writers i);
    active =
        λ h. ground (arith, holds-without t (writer m.active_write_transaction_id) live, k.active);
    handed_out = λ u h. ground (arith, holds-without t u live, k.handed_out u);
    in_range = ground (arith, k.in_range);
  }

  by_type :
      (m : TransactionManager) (live : List Transaction) (t : Transaction) (is_commit : Bool)
      → holds t live ≡ true
      → Tracks m live
      → (ty : TransactionType) → t.type ≡ ty
      → (m' : TransactionManager) × (commit_or_rollback record_size m t is_commit ≡ ok m')
  unfolding commit_or_rollback
  by_type m live t is_commit held k read_only e = (
    record m { active_read_only_transaction_ids = erase t.id m.active_read_only_transaction_ids },
    ground arith,
  )
  by_type m live t is_commit held k write e =
      let current : m.active_write_transaction_id ≡ t.id = ground (arith, k.writers t.id) in
      (
        if is_commit
            then record m {
              wal = log_commit record_size m.wal t.id;
              last_commit_id = m.last_commit_id + 1;
            }
            else m,
        ground arith,
      )

  -- A held transaction can be committed and rolled back: neither call throws.
  pub release_succeeds :
      (m : TransactionManager) (live : List Transaction) (t : Transaction) (is_commit : Bool)
      → holds t live ≡ true
      → Tracks m live
      → (m' : TransactionManager) × (commit_or_rollback record_size m t is_commit ≡ ok m')
  release_succeeds m live t is_commit held k = by_type m live t is_commit held k t.type refl

pub manually_clear-Tracks :
    (m m' : TransactionManager) (live : List Transaction) (t : Transaction)
    → manually_clear_active_write_transaction m t ≡ ok m'
    → holds t live ≡ true
    → Tracks m live
    → Tracks m' (if is_write_transaction t then without t live else live)
unfolding manually_clear_active_write_transaction serialized
    clear_active_write_transaction_if_write_transaction
manually_clear-Tracks m m' live t e held k = record {
  readers = λ i. ground (arith, holds-without t (reader i) live, k.readers i);
  writers = λ i h. ground (arith, holds-without t (writer i) live, k.writers i, k.writers t.id);
  active = λ h. ground (arith, k.active);
  handed_out = λ u h. ground (arith, holds-without t u live, k.handed_out u);
  in_range = ground (arith, k.in_range);
}
