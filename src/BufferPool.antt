-- ===== src/BufferPool.antt =====
-- The pool of page frames: src/storage/buffer_manager/include/buffer_pool.h and
-- src/storage/buffer_manager/buffer_pool.cpp.
--
-- A `FileHandle*` is an address in the heap `files`, and the returned pointer into a buffer is the
-- index of its frame. The calls run one at a time: a page lock can still be held from before, when
-- a caller keeps it or an exception has left it behind, but a frame's own lock, which every call
-- takes and gives back, is always free when it is tried. Pin counts, page and frame indices are
-- 32-bit, the clock hand and the metrics 64-bit, with their wrap-around.
pub mod Claim
pub mod Clock
pub mod Availability
pub mod Effects
pub mod Eviction
pub mod Search
pub mod Files
pub mod Flush
pub mod Invariant
pub mod Contents
mod Examples
pub mod Pin
pub mod Pinning
pub mod Release
pub mod Removal
pub mod Remove
pub mod Unpinning
pub mod Returns
pub mod Start
use graphflowdb.Base.{
  ℕ, zero, suc, ◌+◌, ◌*◌, ◌%◌, ◌^◌, ◌-◌, Bool, true, false, not, ◌||◌, Option, none, some, ◌==◌,
  ltb, leb, if◌then◌else◌, update,
}
use graphflowdb.FileHandle.{
  uint32_max, FileHandle, Acquired, acquired, held, out_of_bounds, is_a_frame, ceil_div,
  get_frame_idx, read_page, write_page, swizzle, unswizzle, acquire, release_page_lock,
}

pub record BufferManagerMetrics : Type 0 where
  pub num_pins : ℕ
  pub num_evicts : ℕ
  pub num_evict_fails : ℕ
  pub num_recently_accessed_walkover : ℕ
  pub num_cache_hit : ℕ
  pub num_cache_miss : ℕ
  pub num_dirty_page_write_io : ℕ

pub record Frame (Page : Type 0) : Type 0 where
  pub file_handle_ptr : ℕ
  pub page_idx : ℕ
  pub pin_count : ℕ
  pub recently_accessed : Bool
  pub is_dirty : Bool
  pub buffer : Page

pub record BufferPool (Page : Type 0) : Type 0 where
  pub page_size : ℕ
  pub buffer_cache : ℕ → Frame Page
  pub clock_hand : ℕ
  pub num_frames : ℕ
  pub bm_metrics : BufferManagerMetrics
  pub files : ℕ → FileHandle Page

-- What a try to fill or evict a frame comes to; `failed` is an exception.
pub data Tried : Type 0 where
  taken refused failed : Tried

-- A call returns, throws, or waits for a page lock that nobody gives back.
pub data Outcome (A : Type 0) : Type 0 where
  returned : A → Outcome A
  thrown waiting : Outcome A

abbrev pub count : ℕ → ℕ
count n = (n + 1) % 2 ^ 64

module _ {Page : Type 0} where
  abbrev pub set_frame : BufferPool Page → ℕ → Frame Page → BufferPool Page
  set_frame s i frame = record s { buffer_cache = update s.buffer_cache i frame }

  abbrev pub set_file : BufferPool Page → ℕ → FileHandle Page → BufferPool Page
  set_file s ptr h = record s { files = update s.files ptr h }

  abbrev pub reset_frame_without_lock : Frame Page → Frame Page
  reset_frame_without_lock frame = record frame {
    file_handle_ptr = uint32_max;
    page_idx = uint32_max;
    pin_count = uint32_max;
    recently_accessed = false;
    is_dirty = false;
  }

  -- A new frame's buffer is zeroed: `blank`.
  abbrev pub new_frame : Page → Frame Page
  new_frame blank = reset_frame_without_lock (record {
    file_handle_ptr = 0;
    page_idx = 0;
    pin_count = 0;
    recently_accessed = false;
    is_dirty = false;
    buffer = blank;
  })

  unfoldable pub new_buffer_pool : Page → ℕ → ℕ → (ℕ → FileHandle Page) → BufferPool Page
  new_buffer_pool blank page_size max_size files = record {
    page_size = page_size;
    buffer_cache = λ i. new_frame blank;
    clock_hand = 0;
    num_frames = ceil_div max_size page_size % 2 ^ 32;
    bm_metrics = record {
      num_pins = 0;
      num_evicts = 0;
      num_evict_fails = 0;
      num_recently_accessed_walkover = 0;
      num_cache_hit = 0;
      num_cache_miss = 0;
      num_dirty_page_write_io = 0;
    };
    files = files;
  }

  -- `none` is the exception. The frames behind the old end are new ones.
  unfoldable pub resize : Page → BufferPool Page → ℕ → Option (BufferPool Page)
  resize blank s new_size =
      if ltb new_size (s.num_frames * s.page_size)
      then none
      else some (record s {
        buffer_cache = λ i. if ltb i s.num_frames then s.buffer_cache i else new_frame blank;
        num_frames = ceil_div new_size s.page_size % 2 ^ 32;
      })

  abbrev pub flush_if_dirty : BufferPool Page → ℕ → BufferPool Page
  flush_if_dirty s i =
      let frame = s.buffer_cache i in
      let s' : BufferPool Page = record s {
        bm_metrics = record s.bm_metrics {
          num_dirty_page_write_io = count (s.bm_metrics.num_dirty_page_write_io);
        };
      } in
      if frame.is_dirty
      then set_file s' frame.file_handle_ptr
          (write_page (s.files frame.file_handle_ptr) frame.buffer frame.page_idx)
      else s

  abbrev pub clear_frame_and_unswizzle_without_lock : BufferPool Page → ℕ → ℕ → ℕ → BufferPool Page
  clear_frame_and_unswizzle_without_lock s i file page_idx =
      set_file (set_frame s i (reset_frame_without_lock (s.buffer_cache i))) file
        (unswizzle (s.files file) page_idx)

  abbrev pub read_new_page_into_frame : BufferPool Page → ℕ → ℕ → ℕ → Bool → BufferPool Page
  read_new_page_into_frame s i file page_idx do_not_read_from_file = set_frame s i (record {
    pin_count = 1;
    recently_accessed = true;
    is_dirty = false;
    page_idx = page_idx;
    file_handle_ptr = file;
    buffer =
        if do_not_read_from_file
        then (s.buffer_cache i).buffer
        else read_page (s.files file) page_idx;
  })

  unfoldable pub fill_empty_frame : BufferPool Page → ℕ → ℕ → ℕ → Bool → BufferPool Page × Tried
  fill_empty_frame s i file page_idx do_not_read_from_file =
      if (s.buffer_cache i).pin_count == uint32_max
      then (read_new_page_into_frame s i file page_idx do_not_read_from_file, taken)
      else (s, refused)
