-- ===== src/BufferPool/Pin.antt =====
-- Pins, unpins and dirty marks: pin, unpin and setPinnedPageDirty of
-- src/storage/buffer_manager/buffer_pool.cpp.
use graphflowdb.Base.{
  ℕ, ◌+◌, ◌%◌, ◌^◌, ◌-◌, Bool, true, not, ◌||◌, Option, none, some, ltb, if◌then◌else◌,
}
use graphflowdb.FileHandle.{
  Acquired, FileHandle, acquired, held, out_of_bounds, is_a_frame, get_frame_idx, swizzle, acquire,
  release_page_lock,
}
use graphflowdb.BufferPool.{
  BufferPool, Outcome, returned, thrown, waiting, count, set_frame, set_file,
}
use graphflowdb.BufferPool.Claim.{claim_a_frame}

module _ {Page : Type 0} where
  abbrev pub count_pin : BufferPool Page → BufferPool Page
  count_pin s = record s {
    bm_metrics = record s.bm_metrics { num_pins = count (s.bm_metrics.num_pins) };
  }

  abbrev pub count_miss : Bool → BufferPool Page → BufferPool Page
  count_miss do_not_read_from_file s = if do_not_read_from_file then s else record s {
    bm_metrics = record s.bm_metrics { num_cache_miss = count (s.bm_metrics.num_cache_miss) };
  }

  -- The pointer that a pin returns is to the buffer of the frame that now holds the page.
  abbrev pub return_buffer : BufferPool Page → ℕ → ℕ → BufferPool Page × Outcome ℕ
  return_buffer s file page_idx = (count_pin s, returned (get_frame_idx (s.files file) page_idx))

  abbrev pub pin_in_frame : BufferPool Page → ℕ → BufferPool Page
  pin_in_frame s i = set_frame s i (record (s.buffer_cache i) {
    pin_count = ((s.buffer_cache i).pin_count + 1) % 2 ^ 32;
    recently_accessed = true;
  })

  abbrev pub pin_claimed : BufferPool Page × Option ℕ → ℕ → ℕ → Bool → BufferPool Page × Outcome ℕ
  pin_claimed (s, none) file page_idx do_not_read_from_file = (s, thrown)
  pin_claimed (s, some i) file page_idx do_not_read_from_file =
      return_buffer
        (count_miss do_not_read_from_file (set_file s file (swizzle (s.files file) page_idx i)))
        file page_idx

  unfoldable pub pin_without_acquiring_page_lock :
      BufferPool Page → ℕ → ℕ → Bool → BufferPool Page × Outcome ℕ
  unfolding claim_a_frame
  pin_without_acquiring_page_lock s file page_idx do_not_read_from_file =
      let frame_idx = get_frame_idx (s.files file) page_idx in
      if is_a_frame frame_idx
      then return_buffer (pin_in_frame s frame_idx) file page_idx
      else pin_claimed (claim_a_frame s file page_idx do_not_read_from_file) file page_idx
          do_not_read_from_file

  -- A call under the lock of a page: an exception leaves the lock taken.
  abbrev pub release_after :
      {A : Type 0} → BufferPool Page × Outcome A → ℕ → ℕ → BufferPool Page × Outcome A
  release_after (s, returned a) file page_idx =
      (set_file s file (release_page_lock (s.files file) page_idx), returned a)
  release_after (s, thrown) file page_idx = (s, thrown)
  release_after (s, waiting) file page_idx = (s, waiting)

  abbrev pub run_if_acquired :
      {A : Type 0}
      → (BufferPool Page → BufferPool Page × Outcome A)
      → BufferPool Page
      → ℕ
      → ℕ
      → Acquired (FileHandle Page)
      → BufferPool Page × Outcome A
  run_if_acquired call s file page_idx (acquired h) =
      release_after (call (set_file s file h)) file page_idx
  run_if_acquired call s file page_idx held = (s, waiting)
  run_if_acquired call s file page_idx out_of_bounds = (s, thrown)

  abbrev pub with_page_lock :
      {A : Type 0}
      → (BufferPool Page → BufferPool Page × Outcome A)
      → BufferPool Page
      → ℕ
      → ℕ
      → BufferPool Page × Outcome A
  with_page_lock call s file page_idx =
      run_if_acquired call s file page_idx (acquire (s.files file) page_idx)

  unfoldable pub pin : BufferPool Page → ℕ → ℕ → Bool → BufferPool Page × Outcome ℕ
  unfolding pin_without_acquiring_page_lock
  pin s file page_idx do_not_read_from_file =
      with_page_lock (λ s'. pin_without_acquiring_page_lock s' file page_idx do_not_read_from_file)
        s file page_idx

  abbrev pub set_dirty_locked : BufferPool Page → ℕ → ℕ → BufferPool Page × Outcome (Unit {0})
  set_dirty_locked s file page_idx =
      let frame_idx = get_frame_idx (s.files file) page_idx in
      if not (is_a_frame frame_idx) || ltb (s.buffer_cache frame_idx).pin_count 1
      then (set_file s file (release_page_lock (s.files file) page_idx), thrown)
      else (
        set_frame s frame_idx (record (s.buffer_cache frame_idx) { is_dirty = true }),
        returned tt,
      )

  unfoldable pub set_pinned_page_dirty :
      BufferPool Page → ℕ → ℕ → BufferPool Page × Outcome (Unit {0})
  set_pinned_page_dirty s file page_idx =
      with_page_lock (λ s'. set_dirty_locked s' file page_idx) s file page_idx

  -- The assertion that the count was not 0 is not compiled in a release.
  unfoldable pub unpin_without_acquiring_page_lock : BufferPool Page → ℕ → ℕ → BufferPool Page
  unpin_without_acquiring_page_lock s file page_idx =
      let i = get_frame_idx (s.files file) page_idx in
      set_frame s i (record (s.buffer_cache i) {
        pin_count = ((s.buffer_cache i).pin_count + (2 ^ 32 - 1)) % 2 ^ 32;
      })

  unfoldable pub unpin : BufferPool Page → ℕ → ℕ → BufferPool Page × Outcome (Unit {0})
  unfolding unpin_without_acquiring_page_lock
  unpin s file page_idx =
      with_page_lock (λ s'. (unpin_without_acquiring_page_lock s' file page_idx, returned tt)) s
        file page_idx
