-- ===== src/BufferPool/Claim.antt =====
-- The search for a frame by the clock: claimAFrame, tryEvict and moveClockHand of
-- src/storage/buffer_manager/buffer_pool.cpp.
use graphflowdb.Base.{
  ℕ, zero, suc, ◌+◌, ◌*◌, ◌%◌, ◌^◌, Bool, false, not, Option, none, some, ◌==◌, ltb, if◌then◌else◌,
}
use graphflowdb.FileHandle.{uint32_max, acquired, held, out_of_bounds, acquire, release_page_lock}
use graphflowdb.BufferPool.{
  BufferPool, Tried, taken, refused, failed, count, set_frame, set_file, flush_if_dirty,
  clear_frame_and_unswizzle_without_lock, read_new_page_into_frame, fill_empty_frame,
}

module _ {Page : Type 0} where
  abbrev pub count_evict_fail : BufferPool Page → BufferPool Page
  count_evict_fail s = record s {
    bm_metrics = record s.bm_metrics { num_evict_fails = count (s.bm_metrics.num_evict_fails) };
  }

  -- The last part of `try_evict`, which puts the frame's page on disk if it is dirty, clears the
  -- frame and reads the new page into it.
  unfoldable pub evict : BufferPool Page → ℕ → ℕ → ℕ → Bool → BufferPool Page
  evict s i file page_idx do_not_read_from_file =
      let page_idx_in_frame = (s.buffer_cache i).page_idx in
      let file_in_frame = (s.buffer_cache i).file_handle_ptr in
      let cleared =
        clear_frame_and_unswizzle_without_lock (flush_if_dirty s i) i file_in_frame
          page_idx_in_frame in
      let released =
        set_file cleared file_in_frame
          (release_page_lock (cleared.files file_in_frame) page_idx_in_frame) in
      let filled = read_new_page_into_frame released i file page_idx do_not_read_from_file in
      record filled {
        bm_metrics = record filled.bm_metrics { num_evicts = count (filled.bm_metrics.num_evicts) };
      }

  -- The part of `try_evict` that runs with the lock of the resident page held.
  unfoldable pub evict_locked : BufferPool Page → ℕ → ℕ → ℕ → Bool → BufferPool Page × Tried
  unfolding evict
  evict_locked s i file page_idx do_not_read_from_file =
      let page_idx_in_frame = (s.buffer_cache i).page_idx in
      let file_in_frame = (s.buffer_cache i).file_handle_ptr in
      let s' = count_evict_fail s in
      if not ((s.buffer_cache i).pin_count == 0)
      then (
        set_file s' file_in_frame (release_page_lock (s'.files file_in_frame) page_idx_in_frame),
        refused,
      )
      else (evict s i file page_idx do_not_read_from_file, taken)

  abbrev pub walk_over : BufferPool Page → ℕ → BufferPool Page
  walk_over s i =
      set_frame
        (record s {
          bm_metrics = record s.bm_metrics {
            num_recently_accessed_walkover = count (s.bm_metrics.num_recently_accessed_walkover);
          };
        })
        i (record (s.buffer_cache i) { recently_accessed = false })

  -- When the lock of the resident page is past the vector the call throws; the spin lock of the
  -- frame, which the source then leaves held, is not part of the model.
  unfoldable pub try_evict : BufferPool Page → ℕ → ℕ → ℕ → Bool → BufferPool Page × Tried
  unfolding evict_locked
  try_evict s i file page_idx do_not_read_from_file =
      let file_in_frame = (s.buffer_cache i).file_handle_ptr in
      if (s.buffer_cache i).recently_accessed
      then (walk_over s i, refused)
      else elim (acquire (s.files file_in_frame) (s.buffer_cache i).page_idx) [
        | acquired h ↦
            evict_locked (set_file s file_in_frame h) i file page_idx do_not_read_from_file
        | held ↦ (count_evict_fail s, refused)
        | out_of_bounds ↦ (s, failed)
      ]

  abbrev pub move_clock_hand : BufferPool Page → ℕ → BufferPool Page
  move_clock_hand s new_clock_hand =
      if ltb new_clock_hand s.clock_hand then s else record s { clock_hand = new_clock_hand }

  -- One round of the loop of `claim_a_frame`. A frame whose pin count is neither 0 nor that of an
  -- empty frame is passed over.
  unfoldable pub try_frame : BufferPool Page → ℕ → ℕ → ℕ → Bool → BufferPool Page × Tried
  unfolding fill_empty_frame try_evict
  try_frame s i file page_idx do_not_read_from_file =
      let pin_count = (s.buffer_cache i).pin_count in
      if pin_count == uint32_max
      then fill_empty_frame s i file page_idx do_not_read_from_file
      else if pin_count == 0
      then try_evict s i file page_idx do_not_read_from_file
      else (s, refused)

  -- The loop from its round `i` on, for `rounds` more rounds; `none` is an exception.
  unfoldable pub claim_loop :
      ℕ → BufferPool Page → ℕ → ℕ → ℕ → ℕ → Bool → BufferPool Page × Option ℕ
  claim_loop zero s local_clock_hand i file page_idx do_not_read_from_file = (s, none)
  claim_loop (suc rounds) s local_clock_hand i file page_idx do_not_read_from_file =
      let frame_idx = (local_clock_hand % s.num_frames + i) % s.num_frames in
      let r = try_frame s frame_idx file page_idx do_not_read_from_file in
      elim r.1 [
        | taken ↦ (move_clock_hand r.0 ((local_clock_hand + i + 1) % 2 ^ 64), some frame_idx)
        | refused ↦
            claim_loop rounds r.0 local_clock_hand (i + 1) file page_idx do_not_read_from_file
        | failed ↦ (r.0, none)
      ]

  unfoldable pub claim_a_frame : BufferPool Page → ℕ → ℕ → Bool → BufferPool Page × Option ℕ
  unfolding claim_loop
  claim_a_frame s file page_idx do_not_read_from_file =
      claim_loop (2 * s.num_frames % 2 ^ 32) s s.clock_hand 0 file page_idx do_not_read_from_file
