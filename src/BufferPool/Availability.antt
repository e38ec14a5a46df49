-- ===== src/BufferPool/Availability.antt =====
-- When the search for a frame succeeds: the two rounds of the clock in claimAFrame of
-- src/storage/buffer_manager/buffer_pool.cpp are enough when some frame can be given away.
use graphflowdb.Base.{
  ℕ, ◌<◌, ◌≡◌, ◌≢◌, sym, ◌∙◌, ◌⊎◌, inl, inr, Bool, true, false, arith, ◌==◌, if◌then◌else◌,
  Bool-cases,
}
use graphflowdb.FileHandle.{uint32_max}
use graphflowdb.BufferPool.{BufferPool, Tried, taken, refused}
use graphflowdb.BufferPool.Claim.{try_frame, try_evict}
use graphflowdb.BufferPool.Effects.{is_locked, Similar, Similar-refl}
use graphflowdb.BufferPool.Search.{
  acquire_cases, answer_out, answer_held, answer_acquired, walk_over_lem, count_evict_fail_lem,
  evict_locked_lem,
}
use mathlib.Core.Bool.{true≢false}
use graphflowdb.BufferPool.Eviction.{lock_page}

module _ {Page : Type 0} where
  -- A frame that can be given away: an empty one, or an unpinned one whose page's lock is free.
  abbrev pub IsAvailable : BufferPool Page → ℕ → Type 0
  IsAvailable s i =
      ((s.buffer_cache i).pin_count ≡ uint32_max)
      ⊎ (((s.buffer_cache i).pin_count ≡ 0)
          × (is_locked s (s.buffer_cache i).file_handle_ptr (s.buffer_cache i).page_idx ≡ false))

  -- The clock does not pass the frame over for a recent access.
  abbrev pub IsReady : BufferPool Page → ℕ → Type 0
  IsReady s i = (s.buffer_cache i).recently_accessed ≡ false

  -- The page that a frame holds is inside its file.
  abbrev pub IsInside : BufferPool Page → Type 0
  IsInside s =
      (i : ℕ)
      → i < s.num_frames
      → (s.buffer_cache i).pin_count ≢ uint32_max
      → (s.buffer_cache i).page_idx < (s.files (s.buffer_cache i).file_handle_ptr).page_capacity

  -- One try either takes the frame, or passes it over: then no frame has become less available, and
  -- a frame that could be given away had been accessed and is not any more.
  pub data Progress (s : BufferPool Page) (i : ℕ) : BufferPool Page × Tried → Type 0 where
    done : (s' : BufferPool Page) → Progress s i (s', taken)
    passed :
        (s' : BufferPool Page)
        → Similar s s'
        → ((j : ℕ) → IsReady s j → IsReady s' j)
        → (IsAvailable s i → ((s.buffer_cache i).recently_accessed ≡ true) × IsReady s' i)
        → Progress s i (s', refused)

  evict_Progress :
      (s : BufferPool Page) (i file page_idx : ℕ) (new : Bool)
      → (s.buffer_cache i).pin_count ≡ 0
      → (s.buffer_cache i).page_idx < (s.files (s.buffer_cache i).file_handle_ptr).page_capacity
      → Progress s i (try_evict s i file page_idx new)
  unfolding try_evict
  evict_Progress s i file page_idx new z inside =
      let g = (s.buffer_cache i).file_handle_ptr in
      let q = (s.buffer_cache i).page_idx in
      elim (Bool-cases (s.buffer_cache i).recently_accessed) [
        | inl r ↦
            rw (r, if◌then◌else◌)
              (passed _ (walk_over_lem s i) (λ j h. ground arith) (λ _. (r, ground arith)))
        | inr r ↦ elim (acquire_cases s g q) [
          | answer_out a c ↦ absurd (omega (arith, c, inside))
          | answer_held a c ↦
              rw (r, if◌then◌else◌, a)
                (passed _ (count_evict_fail_lem s) (λ j h. h)
                  (λ v. elim v [
                    | inl e ↦ absurd (omega (arith, e, z))
                    | inr e ↦ absurd (true≢false (sym c ∙ e.1))
                  ]))
          | answer_acquired a c ↦
              rw (r, if◌then◌else◌, a, evict_locked_lem (lock_page s g q) i file page_idx new z)
                (done _)
        ]
      ]

  pub try_Progress :
      (s : BufferPool Page) (i file page_idx : ℕ) (new : Bool)
      → i < s.num_frames
      → IsInside s
      → Progress s i (try_frame s i file page_idx new)
  unfolding try_frame
  try_Progress s i file page_idx new lt inside =
      elim (Bool-cases ((s.buffer_cache i).pin_count == uint32_max)) [
        | inl e ↦ rw (e, if◌then◌else◌) (done _)
        | inr e ↦ elim (Bool-cases ((s.buffer_cache i).pin_count == 0)) [
          | inl z ↦
              rw (e, z, if◌then◌else◌)
                (evict_Progress s i file page_idx new (ground arith) (inside i lt (ground arith)))
          | inr z ↦
              rw (e, z, if◌then◌else◌)
                (passed s (Similar-refl s) (λ j h. h)
                  (λ v. absurd (unavailable v (ground arith) (ground arith))))
        ]
      ]
    where
      unavailable :
          IsAvailable s i
          → (s.buffer_cache i).pin_count ≢ uint32_max
          → (s.buffer_cache i).pin_count ≢ 0
          → ⊥
      unavailable (inl e) a b = a e
      unavailable (inr e) a b = b e.0
