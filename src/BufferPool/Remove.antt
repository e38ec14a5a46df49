-- ===== src/BufferPool/Remove.antt =====
-- Pages taken out of their frames, and a frame rewritten in place: removePageFromFrame and its
-- callers, and updateFrameIfPageIsInFrameWithoutPageOrFrameLock, of
-- src/storage/buffer_manager/buffer_pool.cpp.
use graphflowdb.Base.{ℕ, zero, suc, ◌+◌, Bool, true, false, leb, if◌then◌else◌}
use graphflowdb.FileHandle.{is_a_frame, get_frame_idx}
use graphflowdb.BufferPool.{
  BufferPool, Outcome, returned, thrown, waiting, set_frame, flush_if_dirty,
  clear_frame_and_unswizzle_without_lock,
}
use graphflowdb.BufferPool.Pin.{with_page_lock}

module _ {Page : Type 0} where
  abbrev pub remove_locked : Bool → BufferPool Page → ℕ → ℕ → BufferPool Page
  remove_locked should_flush s file page_idx =
      let i = get_frame_idx (s.files file) page_idx in
      let s' = if should_flush then flush_if_dirty s i else s in
      if is_a_frame i then clear_frame_and_unswizzle_without_lock s' i file page_idx else s

  unfoldable pub remove_page_from_frame :
      BufferPool Page → ℕ → ℕ → Bool → BufferPool Page × Outcome (Unit {0})
  remove_page_from_frame s file page_idx should_flush =
      with_page_lock (λ s'. (remove_locked should_flush s' file page_idx, returned tt)) s file
        page_idx

  unfoldable pub remove_page_from_frame_without_flushing_if_necessary :
      BufferPool Page → ℕ → ℕ → BufferPool Page × Outcome (Unit {0})
  unfolding remove_page_from_frame
  remove_page_from_frame_without_flushing_if_necessary s file page_idx =
      if leb (s.files file).num_pages page_idx
      then (s, returned tt)
      else remove_page_from_frame s file page_idx false

  -- The loop over the pages of a file from `page_idx` on, for the given number of rounds; it stops
  -- at the first page whose removal does not return.
  unfoldable pub remove_pages :
      ℕ → BufferPool Page → ℕ → ℕ → Bool → BufferPool Page × Outcome (Unit {0})
  unfolding remove_page_from_frame
  remove_pages zero s file page_idx should_flush = (s, returned tt)
  remove_pages (suc rounds) s file page_idx should_flush =
      let r = remove_page_from_frame s file page_idx should_flush in
      elim r.1 [
        | returned u ↦ remove_pages rounds r.0 file (page_idx + 1) should_flush
        | thrown ↦ r
        | waiting ↦ r
      ]

  unfoldable pub remove_file_pages_from_frames :
      BufferPool Page → ℕ → BufferPool Page × Outcome (Unit {0})
  unfolding remove_pages
  remove_file_pages_from_frames s file = remove_pages (s.files file).num_pages s file 0 false

  unfoldable pub flush_all_dirty_pages_in_frames :
      BufferPool Page → ℕ → BufferPool Page × Outcome (Unit {0})
  unfolding remove_pages
  flush_all_dirty_pages_in_frames s file = remove_pages (s.files file).num_pages s file 0 true

  unfoldable pub update_frame_if_page_is_in_frame_without_page_or_frame_lock :
      BufferPool Page → ℕ → Page → ℕ → BufferPool Page
  update_frame_if_page_is_in_frame_without_page_or_frame_lock s file new_page page_idx =
      let i = get_frame_idx (s.files file) page_idx in
      if is_a_frame i then set_frame s i (record (s.buffer_cache i) { buffer = new_page }) else s
