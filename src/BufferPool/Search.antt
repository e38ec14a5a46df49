-- ===== src/BufferPool/Search.antt =====
-- The search for a frame: the state that claimAFrame of
-- src/storage/buffer_manager/buffer_pool.cpp leaves, whether it finds a frame or throws.
use graphflowdb.Base.{
  ℕ, zero, suc, ◌+◌, ◌*◌, ◌%◌, ◌^◌, ◌<◌, ◌≤◌, leb, ltb, leb→le, Option-cases, ◌≡◌, refl, inl, inr,
  Bool, true, false, Option, none, some, arith, ◌==◌, if◌then◌else◌, Bool-cases,
}
use graphflowdb.FileHandle.{uint32_max, acquired, held, out_of_bounds, acquire, test_and_set}
use graphflowdb.BufferPool.{BufferPool, Tried, taken, refused, failed}
use graphflowdb.BufferPool.Claim.{
  evict, evict_locked, try_evict, try_frame, claim_loop, claim_a_frame, walk_over, move_clock_hand,
  count_evict_fail,
}
use graphflowdb.BufferPool.Effects.{
  Similar, Placed, Similar-refl, Similar-trans, Similar-Placed, is_locked,
}
use graphflowdb.BufferPool.Eviction.{lock_page, fill_Placed, evict-Placed}
use native.Mathlib.Nat.{mod-lt}

module _ {Page : Type 0} where
  -- A try that takes the frame has placed the page in it; any other leaves the same pages in the
  -- same frames.
  abbrev Tries : BufferPool Page → BufferPool Page × Tried → ℕ → ℕ → ℕ → Bool → Type 0
  Tries s (s', taken) i file page_idx new = Placed s s' i file page_idx new
  Tries s (s', _) i file page_idx new = Similar s s'

  pub walk_over_lem : (s : BufferPool Page) (i : ℕ) → Similar s (walk_over s i)
  walk_over_lem s i = record {
    alike = record {
      sizes = refl;
      frames = λ j. ground arith;
      frames_of = λ f p. refl;
      disk = λ f p. refl;
    };
    locks = λ f p. refl;
    capacities = λ f. refl;
  }

  pub count_evict_fail_lem : (s : BufferPool Page) → Similar s (count_evict_fail s)
  count_evict_fail_lem s = record {
    alike = record {
      sizes = refl;
      frames = λ j. refl;
      frames_of = λ f p. refl;
      disk = λ f p. refl;
    };
    locks = λ f p. refl;
    capacities = λ f. refl;
  }

  pub evict_locked_lem :
      (s : BufferPool Page) (i file page_idx : ℕ) (new : Bool)
      → (s.buffer_cache i).pin_count ≡ 0
      → evict_locked s i file page_idx new ≡ (evict s i file page_idx new, taken)
  unfolding evict_locked
  evict_locked_lem s i file page_idx new e = rw e

  -- The three ways the lock of a page answers.
  pub data Answer (s : BufferPool Page) (f p : ℕ) : Type 0 where
    answer_out :
        acquire (s.files f) p ≡ out_of_bounds → (s.files f).page_capacity ≤ p → Answer s f p
    answer_held : acquire (s.files f) p ≡ held → is_locked s f p ≡ true → Answer s f p
    answer_acquired :
        acquire (s.files f) p ≡ acquired (test_and_set (s.files f) p)
        → is_locked s f p ≡ false
        → Answer s f p

  pub acquire_cases : (s : BufferPool Page) (f p : ℕ) → Answer s f p
  acquire_cases s f p = elim (Bool-cases (leb (s.files f).page_capacity p)) [
    | inl e ↦ answer_out (rw (e, if◌then◌else◌)) (leb→le _ _ e)
    | inr e ↦ elim (Option-cases ((s.files f).page_locks p)) [
      | inl l ↦ answer_acquired (rw (e, if◌then◌else◌, l)) (rw (l, is_locked))
      | inr (true, l) ↦ answer_held (rw (e, if◌then◌else◌, l)) (rw (l, is_locked))
      | inr (false, l) ↦ answer_acquired (rw (e, if◌then◌else◌, l)) (rw (l, is_locked))
    ]
  ]

  try_evict_lem :
      (s : BufferPool Page) (i file page_idx : ℕ) (new : Bool)
      → i < s.num_frames
      → (s.buffer_cache i).pin_count ≡ 0
      → Tries s (try_evict s i file page_idx new) i file page_idx new
  unfolding try_evict
  try_evict_lem s i file page_idx new lt e =
      let g = (s.buffer_cache i).file_handle_ptr in
      let q = (s.buffer_cache i).page_idx in
      elim (Bool-cases (s.buffer_cache i).recently_accessed) [
        | inl r ↦ rw (r, if◌then◌else◌) (walk_over_lem s i)
        | inr r ↦ elim (acquire_cases s g q) [
          | answer_out a c ↦ rw (r, if◌then◌else◌, a) (Similar-refl s)
          | answer_held a c ↦ rw (r, if◌then◌else◌, a) (count_evict_fail_lem s)
          | answer_acquired a c ↦
              rw (r, if◌then◌else◌, a, evict_locked_lem (lock_page s g q) i file page_idx new e)
                (evict-Placed s i file page_idx new lt e c)
        ]
      ]

  pub try_frame_lem :
      (s : BufferPool Page) (i file page_idx : ℕ) (new : Bool)
      → i < s.num_frames
      → Tries s (try_frame s i file page_idx new) i file page_idx new
  unfolding try_frame
  try_frame_lem s i file page_idx new lt =
      elim (Bool-cases ((s.buffer_cache i).pin_count == uint32_max)) [
        | inl e ↦ rw (e, if◌then◌else◌) (fill_Placed s i file page_idx new lt (ground arith))
        | inr e ↦ elim (Bool-cases ((s.buffer_cache i).pin_count == 0)) [
          | inl z ↦ rw (e, z, if◌then◌else◌) (try_evict_lem s i file page_idx new lt (ground arith))
          | inr z ↦ rw (e, z, if◌then◌else◌) (Similar-refl s)
        ]
      ]

  -- The search throws and leaves the same pages in the same frames, or places the page in the frame
  -- it returns.
  abbrev pub Claims : BufferPool Page → BufferPool Page × Option ℕ → ℕ → ℕ → Bool → Type 0
  Claims s (s', none) file page_idx new = Similar s s'
  Claims s (s', some i) file page_idx new = Placed s s' i file page_idx new

  Claims-trans :
      (s s' : BufferPool Page) (r : BufferPool Page × Option ℕ) (file page_idx : ℕ) (new : Bool)
      → Similar s s'
      → Claims s' r file page_idx new
      → Claims s r file page_idx new
  Claims-trans s s' (u, none) file page_idx new a c = Similar-trans a c
  Claims-trans s s' (u, some i) file page_idx new a c = Similar-Placed a c

  move_clock_hand_lem :
      (s s' : BufferPool Page) (i file page_idx : ℕ) (new : Bool) (hand : ℕ)
      → Placed s s' i file page_idx new
      → Placed s (move_clock_hand s' hand) i file page_idx new
  move_clock_hand_lem s s' i file page_idx new hand t = elim (Bool-cases (ltb hand s'.clock_hand)) [
    | inl e ↦ rw (e, if◌then◌else◌) t
    | inr e ↦
        rw (e, if◌then◌else◌)
          (record {
            sizes = t.sizes;
            in_range = t.in_range;
            available = t.available;
            placed_file = t.placed_file;
            placed_page = t.placed_page;
            placed_pin = t.placed_pin;
            placed_new = t.placed_new;
            placed_read = t.placed_read;
            others = t.others;
            frames_of = t.frames_of;
            disk = t.disk;
            locks = t.locks;
            capacities = t.capacities;
          })
  ]

  claim_loop-Claims :
      (rounds : ℕ) (s : BufferPool Page) (hand i file page_idx : ℕ) (new : Bool)
      → 0 < s.num_frames
      → Claims s (claim_loop rounds s hand i file page_idx new) file page_idx new
  unfolding claim_loop
  claim_loop-Claims zero s hand i file page_idx new h = Similar-refl s
  claim_loop-Claims (suc rounds) s hand i file page_idx new h =
      let j = (hand % s.num_frames + i) % s.num_frames in
      go j (try_frame s j file page_idx new) (try_frame_lem s j file page_idx new (mod-lt _ h))
        (λ s' h'. claim_loop-Claims rounds s' hand (i + 1) file page_idx new h')
    where
      go :
          (j : ℕ) (r : BufferPool Page × Tried)
          → Tries s r j file page_idx new
          → ((s' : BufferPool Page)
              → 0 < s'.num_frames
              → Claims s' (claim_loop rounds s' hand (i + 1) file page_idx new) file page_idx new)
          → Claims s
              (elim r.1 [
                | taken ↦ (move_clock_hand r.0 ((hand + i + 1) % 2 ^ 64), some j)
                | refused ↦ claim_loop rounds r.0 hand (i + 1) file page_idx new
                | failed ↦ (r.0, none)
              ])
              file
              page_idx
              new
      go j (s', taken) t ih = move_clock_hand_lem s s' j file page_idx new _ t
      go j (s', refused) t ih =
          Claims-trans s s' _ file page_idx new t (ih s' (omega (arith, t.alike.sizes)))
      go j (s', failed) t ih = t

  pub claim_a_frame-Claims :
      (s : BufferPool Page) (file page_idx : ℕ) (new : Bool)
      → 0 < s.num_frames
      → Claims s (claim_a_frame s file page_idx new) file page_idx new
  unfolding claim_a_frame
  claim_a_frame-Claims s file page_idx new h =
      claim_loop-Claims (2 * s.num_frames % 2 ^ 32) s s.clock_hand 0 file page_idx new h
