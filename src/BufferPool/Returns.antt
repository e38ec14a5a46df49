-- ===== src/BufferPool/Returns.antt =====
-- When pin of src/storage/buffer_manager/buffer_pool.cpp returns and when it throws.
use graphflowdb.Base.{
  ℕ, zero, suc, ◌+◌, ◌*◌, ◌%◌, ◌^◌, ◌<◌, ◌≡◌, ◌≢◌, refl, sym, ap, ◌∙◌, inl, inr, Bool, true, false,
  ◌&&◌, arith, ◌==◌, if◌then◌else◌, Bool-cases, ℕ-cases, Option, none, some,
}
use graphflowdb.FileHandle.{uint32_max, acquired, held, is_a_frame, acquire, test_and_set}
use graphflowdb.BufferPool.{BufferPool, refused, Outcome, returned, thrown, waiting}
use graphflowdb.BufferPool.Claim.{try_frame, claim_loop, claim_a_frame}
use graphflowdb.BufferPool.Pin.{
  pin, run_if_acquired, release_after, pin_claimed, pin_without_acquiring_page_lock,
}
use graphflowdb.BufferPool.Effects.{frame_of, is_locked, same_page_lem}
use graphflowdb.BufferPool.Eviction.{
  lock_page, lock_page-is_locked, lock_page-frame_of, lock_page-page_capacity,
}
use graphflowdb.BufferPool.Availability.{IsAvailable, IsInside}
use graphflowdb.BufferPool.Clock.{Finds, next, claim_a_frame-Finds}
use graphflowdb.BufferPool.Search.{answer_out, answer_held, answer_acquired, acquire_cases}
use graphflowdb.BufferPool.Invariant.{IsSwizzled}
use native.Mathlib.Nat.{mod-lt}
use mathlib.Core.Path.{subst}
use mathlib.Core.Bool.{true≢false}

module _ {Page : Type 0} where
  abbrev pub Returns : BufferPool Page × Outcome ℕ → Type 0
  Returns r = (i : ℕ) × (r.1 ≡ returned i)

  -- The lock of a page inside its file that nobody holds is taken.
  pub acquire_free :
      (s : BufferPool Page) (f p : ℕ)
      → is_locked s f p ≡ false
      → p < (s.files f).page_capacity
      → acquire (s.files f) p ≡ acquired (test_and_set (s.files f) p)
  acquire_free s f p free inside = elim (acquire_cases s f p) [
    | answer_out a c ↦ absurd (omega (arith, c, inside))
    | answer_held a c ↦ absurd (true≢false (sym c ∙ free))
    | answer_acquired a c ↦ a
  ]

  acquire_locked :
      (s : BufferPool Page) (f p : ℕ)
      → p < (s.files f).page_capacity
      → acquire ((lock_page s f p).files f) p ≡ held
  acquire_locked s f p inside = ground arith

  claimed-Returns :
      (r : BufferPool Page × Option ℕ) (file page_idx : ℕ) (new : Bool)
      → Finds r
      → Returns (pin_claimed r file page_idx new)
  claimed-Returns (s, none) file page_idx new h = absurd (cc h.1)
  claimed-Returns (s, some i) file page_idx new h = (_, refl)

  released-Returns :
      (r : BufferPool Page × Outcome ℕ) (file page_idx : ℕ)
      → Returns r
      → Returns (release_after r file page_idx)
  released-Returns (s, returned i) file page_idx h = (i, refl)
  released-Returns (s, thrown) file page_idx h = absurd (cc h.1)
  released-Returns (s, waiting) file page_idx h = absurd (cc h.1)

  -- Taking the lock of a page that is in no frame leaves the frames as available as they were.
  IsAvailable-locked :
      (s : BufferPool Page) (file page_idx j : ℕ)
      → IsSwizzled s
      → j < s.num_frames
      → frame_of s file page_idx ≡ uint32_max
      → IsAvailable s j
      → IsAvailable (lock_page s file page_idx) j
  IsAvailable-locked s file page_idx j w lt out (inl e) = inl e
  IsAvailable-locked s file page_idx j w lt out (inr e) =
      let g = (s.buffer_cache j).file_handle_ptr in
      let q = (s.buffer_cache j).page_idx in
      let at = w.held_frame j lt (λ z. omega (arith, e.0, z)) in
      elim (Bool-cases (file == g && page_idx == q)) [
        | inl same ↦
            let eq = same_page_lem file page_idx g q same in
            absurd (
              omega (
                arith,
                w.few_frames,
                lt,
                at,
                out,
                ap (λ x. frame_of s x page_idx) eq.0 ∙ ap (frame_of s g) eq.1,
              ))
        | inr other ↦ inr (
          e.0,
          lock_page-is_locked s file page_idx g q
              ∙ ap (λ b. if b then true else is_locked s g q) other
              ∙ e.1,
        )
      ]

  IsInside-locked :
      (s : BufferPool Page) (file page_idx : ℕ) → IsInside s → IsInside (lock_page s file page_idx)
  IsInside-locked s file page_idx h i lt n =
      omega (
        arith,
        h i lt n,
        lock_page-page_capacity s file page_idx (s.buffer_cache i).file_handle_ptr,
      )

  -- A pin of a page inside its file, whose lock is free, returns if some frame is empty, or is
  -- unpinned with the lock of its page free: two rounds of the clock are enough to find it.
  pub pin-Returns :
      (s : BufferPool Page) (file page_idx : ℕ) (new : Bool) (j : ℕ)
      → IsSwizzled s
      → IsInside s
      → 2 * s.num_frames < 2 ^ 32
      → is_locked s file page_idx ≡ false
      → page_idx < (s.files file).page_capacity
      → j < s.num_frames
      → IsAvailable s j
      → Returns (pin s file page_idx new)
  unfolding pin pin_without_acquiring_page_lock
  pin-Returns s file page_idx new j w h small free inside lt a =
      let t = lock_page s file page_idx in
      let call : BufferPool Page → BufferPool Page × Outcome ℕ =
        λ t. pin_without_acquiring_page_lock t file page_idx new in
      subst (λ x. Returns (run_if_acquired call s file page_idx x))
        (sym (acquire_free s file page_idx free inside))
        (released-Returns (call t) file page_idx
          (elim (ℕ-cases (frame_of s file page_idx) uint32_max) [
            | inl e ↦
                rw (missed e, if◌then◌else◌)
                  (claimed-Returns _ file page_idx new (
                    claim_a_frame-Finds t file page_idx new j (IsInside-locked s file page_idx h)
                      small lt (IsAvailable-locked s file page_idx j w lt e a)))
            | inr n ↦ rw (found n, if◌then◌else◌) (_, refl)
          ]))
    where
      missed :
          frame_of s file page_idx ≡ uint32_max
          → is_a_frame (frame_of (lock_page s file page_idx) file page_idx) ≡ false
      missed e = ap is_a_frame (lock_page-frame_of s file page_idx file page_idx ∙ e)

      found :
          frame_of s file page_idx ≢ uint32_max
          → is_a_frame (frame_of (lock_page s file page_idx) file page_idx) ≡ true
      found n = ground (arith, lock_page-frame_of s file page_idx file page_idx)

  -- Every frame holds a page that somebody has pinned.
  abbrev pub AllPinned : BufferPool Page → Type 0
  AllPinned s =
      (i : ℕ)
      → i < s.num_frames
      → ((s.buffer_cache i).pin_count ≢ uint32_max) × ((s.buffer_cache i).pin_count ≢ 0)

  try_pinned :
      (s : BufferPool Page) (i file page_idx : ℕ) (new : Bool)
      → (s.buffer_cache i).pin_count ≢ uint32_max
      → (s.buffer_cache i).pin_count ≢ 0
      → try_frame s i file page_idx new ≡ (s, refused)
  unfolding try_frame
  try_pinned s i file page_idx new a b = ground arith

  search_pinned :
      (rounds : ℕ) (s : BufferPool Page) (hand i file page_idx : ℕ) (new : Bool)
      → 0 < s.num_frames
      → AllPinned s
      → claim_loop rounds s hand i file page_idx new ≡ (s, none)
  unfolding claim_loop
  search_pinned zero s hand i file page_idx new pos all = refl
  search_pinned (suc rounds) s hand i file page_idx new pos all =
      let j = (hand % s.num_frames + i) % s.num_frames in
      let pinned = all j (mod-lt _ pos) in
      ap (next file page_idx new rounds hand i j)
        (try_pinned s j file page_idx new pinned.0 pinned.1)
      ∙ (search_pinned rounds s hand (i + 1) file page_idx new pos all)

  -- When every frame is pinned, the pin of a page that is in no frame throws, and it leaves the
  -- page's lock held: from then on a pin of that page waits for ever.
  pub pin-AllPinned :
      (s : BufferPool Page) (file page_idx : ℕ) (new again : Bool)
      → 0 < s.num_frames
      → AllPinned s
      → frame_of s file page_idx ≡ uint32_max
      → is_locked s file page_idx ≡ false
      → page_idx < (s.files file).page_capacity
      → (pin s file page_idx new ≡ (lock_page s file page_idx, thrown))
        × (pin (lock_page s file page_idx) file page_idx again
            ≡ (lock_page s file page_idx, waiting))
  unfolding pin pin_without_acquiring_page_lock claim_a_frame
  pin-AllPinned s file page_idx new again pos all out free inside =
      let t = lock_page s file page_idx in
      let call : BufferPool Page → BufferPool Page × Outcome ℕ =
        λ t. pin_without_acquiring_page_lock t file page_idx new in
      let call' : BufferPool Page → BufferPool Page × Outcome ℕ =
        λ t. pin_without_acquiring_page_lock t file page_idx again in
      (
        ap (run_if_acquired call s file page_idx) (acquire_free s file page_idx free inside)
            ∙ ap (λ r. release_after r file page_idx)
                (missed t pos all (lock_page-frame_of s file page_idx file page_idx ∙ out)),
        ap (run_if_acquired call' t file page_idx) (acquire_locked s file page_idx inside),
      )
    where
      missed :
          (t : BufferPool Page)
          → 0 < t.num_frames
          → AllPinned t
          → frame_of t file page_idx ≡ uint32_max
          → pin_without_acquiring_page_lock t file page_idx new ≡ (t, thrown)
      missed t pos' all' e =
          rw (e, if◌then◌else◌)
            (ap (λ r. pin_claimed r file page_idx new)
              (search_pinned (2 * t.num_frames % 2 ^ 32) t t.clock_hand 0 file page_idx new pos'
                all'))
