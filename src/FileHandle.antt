-- ===== src/FileHandle.antt =====
-- The handle of a paged file: src/storage/buffer_manager/include/file_handle.h and
-- src/storage/buffer_manager/file_handle.cpp.
--
-- A vector of owned atomics is a function: `none` is a null pointer or a position past the vector's
-- end. The bytes of a page are a parameter `Page`, and the file on disk is `pages`, written and read
-- a page at a time; the errors of the operating system are left out. The calls run one at a time, so
-- fhSharedMutex is free when a call takes it. Page counts are 32-bit.
pub mod Sizes
mod Examples
use graphflowdb.Base.{
  ℕ, zero, suc, ◌+◌, ◌*◌, ◌/◌, ◌%◌, ◌^◌, ◌-◌, Bool, true, false, not, Option, none, some, ◌==◌, ltb,
  leb, if◌then◌else◌, update,
}

abbrev pub uint32_max : ℕ
uint32_max = 4294967295

pub record FileHandle (Page : Type 0) : Type 0 where
  pub is_large_paged : Bool
  pub pages : ℕ → Page
  pub page_locks : ℕ → Option Bool
  pub page_idx_to_frame_map : ℕ → Option ℕ
  pub num_pages : ℕ
  pub page_capacity : ℕ

-- A page lock is taken, or held by somebody else, or the index is past the vector and the call
-- throws.
pub data Acquired (A : Type 0) : Type 0 where
  acquired : A → Acquired A
  held out_of_bounds : Acquired A

abbrev pub default_page_size : ℕ
default_page_size = 4096

abbrev pub large_page_size : ℕ
large_page_size = 262144

abbrev pub max : ℕ → ℕ → ℕ
max a b = if ltb a b then b else a

-- The rounded-up quotient, which the source computes through doubles.
abbrev pub ceil_div : ℕ → ℕ → ℕ
ceil_div a zero = 0
ceil_div a (suc b) = (a + b) / suc b

abbrev pub is_a_frame : ℕ → Bool
is_a_frame mapped_frame_idx = not (mapped_frame_idx == uint32_max)

-- The first `size` elements of a vector: a longer vector has null pointers behind its old end.
abbrev pub resize {ℓ} : {A : Type ℓ} → ℕ → (ℕ → Option A) → ℕ → Option A
resize size v i = if ltb i size then v i else none

module _ {Page : Type 0} where
  abbrev pub get_page_size : FileHandle Page → ℕ
  get_page_size h = if h.is_large_paged then large_page_size else default_page_size

  abbrev pub read_page : FileHandle Page → ℕ → Page
  read_page h page_idx = h.pages page_idx

  abbrev pub write_page : FileHandle Page → Page → ℕ → FileHandle Page
  write_page h buffer page_idx = record h { pages = update h.pages page_idx buffer }

  -- A null pointer, which the source must not follow, reads as no frame.
  abbrev pub get_frame_idx : FileHandle Page → ℕ → ℕ
  get_frame_idx h page_idx = elim (h.page_idx_to_frame_map page_idx) [
    | none ↦ uint32_max
    | some idx ↦ idx
  ]

  abbrev pub swizzle : FileHandle Page → ℕ → ℕ → FileHandle Page
  swizzle h page_idx swizzled_val = record h {
    page_idx_to_frame_map = update h.page_idx_to_frame_map page_idx (some swizzled_val);
  }

  abbrev pub unswizzle : FileHandle Page → ℕ → FileHandle Page
  unswizzle h page_idx = record h {
    page_idx_to_frame_map = update h.page_idx_to_frame_map page_idx (some uint32_max);
  }

  abbrev pub test_and_set : FileHandle Page → ℕ → FileHandle Page
  test_and_set h page_idx = record h { page_locks = update h.page_locks page_idx (some true) }

  -- The bound that the source tests is the size of the vector of locks, its capacity. A null pointer
  -- below it, which the source must not follow, reads as a free lock.
  abbrev pub acquire : FileHandle Page → ℕ → Acquired (FileHandle Page)
  acquire h page_idx =
      if leb h.page_capacity page_idx then out_of_bounds else elim (h.page_locks page_idx) [
        | some true ↦ held
        | _ ↦ acquired (test_and_set h page_idx)
      ]

  abbrev pub release_page_lock : FileHandle Page → ℕ → FileHandle Page
  release_page_lock h page_idx = record h { page_locks = update h.page_locks page_idx (some false) }

  abbrev pub add_new_page_lock_and_frame_ptr_without_lock : FileHandle Page → ℕ → FileHandle Page
  add_new_page_lock_and_frame_ptr_without_lock h page_idx = record h {
    page_locks = update h.page_locks page_idx (some false);
    page_idx_to_frame_map = update h.page_idx_to_frame_map page_idx (some uint32_max);
  }

  unfoldable pub add_page_locks_and_frame_ptrs : ℕ → ℕ → FileHandle Page → FileHandle Page
  add_page_locks_and_frame_ptrs zero i h = h
  add_page_locks_and_frame_ptrs (suc rounds) i h =
      add_page_locks_and_frame_ptrs rounds (i + 1)
        (add_new_page_lock_and_frame_ptr_without_lock h i)

  unfoldable pub init_page_idx_to_frame_map_and_locks : FileHandle Page → FileHandle Page
  init_page_idx_to_frame_map_and_locks h = add_page_locks_and_frame_ptrs h.num_pages 0 (record h {
    page_idx_to_frame_map = resize h.page_capacity h.page_idx_to_frame_map;
    page_locks = resize h.page_capacity h.page_locks;
  })

  unfoldable pub construct_existing_file_handle : Bool → (ℕ → Page) → ℕ → FileHandle Page
  construct_existing_file_handle large pages file_length =
      let page_size = if large then large_page_size else default_page_size in
      let num_pages = ceil_div file_length page_size % 2 ^ 32 in
      init_page_idx_to_frame_map_and_locks (record {
        is_large_paged = large;
        pages = pages;
        page_locks = λ i. none;
        page_idx_to_frame_map = λ i. none;
        num_pages = num_pages;
        page_capacity = num_pages;
      })

  unfoldable pub construct_new_file_handle : Bool → (ℕ → Page) → FileHandle Page
  construct_new_file_handle large pages = init_page_idx_to_frame_map_and_locks (record {
    is_large_paged = large;
    pages = pages;
    page_locks = λ i. none;
    page_idx_to_frame_map = λ i. none;
    num_pages = 0;
    page_capacity = 0;
  })

  -- The truncated file reads as `blank` pages.
  unfoldable pub reset_to_zero_pages_and_page_capacity : Page → FileHandle Page → FileHandle Page
  reset_to_zero_pages_and_page_capacity blank h =
      init_page_idx_to_frame_map_and_locks
        (record h { num_pages = 0; page_capacity = 0; pages = λ i. blank })

  unfoldable pub grow_if_full : FileHandle Page → FileHandle Page
  grow_if_full h =
      let capacity = max ((h.page_capacity + 1) % 2 ^ 32) (h.page_capacity * 12 / 10 % 2 ^ 32) in
      if h.num_pages == h.page_capacity
      then record h {
        page_capacity = capacity;
        page_idx_to_frame_map = resize capacity h.page_idx_to_frame_map;
        page_locks = resize capacity h.page_locks;
      }
      else h

  unfoldable pub add_new_page_without_lock : FileHandle Page → ℕ × FileHandle Page
  add_new_page_without_lock h =
      let h' = add_new_page_lock_and_frame_ptr_without_lock (grow_if_full h) h.num_pages in
      (h.num_pages, record h' { num_pages = (h.num_pages + 1) % 2 ^ 32 })

  -- The loop that resets the pointers from `page_idx` on, for the given number of rounds.
  unfoldable pub reset_pages : ℕ → ℕ → FileHandle Page → FileHandle Page
  reset_pages zero page_idx h = h
  reset_pages (suc rounds) page_idx h = reset_pages rounds (page_idx + 1) (record h {
    page_idx_to_frame_map = update h.page_idx_to_frame_map page_idx none;
    page_locks = update h.page_locks page_idx none;
  })

  unfoldable pub remove_page_idx_and_truncate_if_necessary_without_lock :
      FileHandle Page → ℕ → FileHandle Page
  remove_page_idx_and_truncate_if_necessary_without_lock h page_idx =
      if leb h.num_pages page_idx
      then h
      else record (reset_pages (h.num_pages - page_idx) page_idx h) { num_pages = page_idx }
