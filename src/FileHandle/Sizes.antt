-- ===== src/FileHandle/Sizes.antt =====
-- The sizes of a file handle: which pages have a lock and a place in the map of frames, after any
-- calls of src/storage/buffer_manager/file_handle.cpp.
use graphflowdb.Base.{
  ℕ, zero, suc, ◌+◌, ◌-◌, ◌^◌, ◌≤◌, ◌<◌, ◌≡◌, ◌≢◌, refl, inl, inr, Bool, true, false, ◌&&◌, none,
  some, arith, ltb, leb, if◌then◌else◌, update, Bool-cases,
}
use graphflowdb.FileHandle.{
  uint32_max, FileHandle, resize, add_new_page_lock_and_frame_ptr_without_lock,
  add_page_locks_and_frame_ptrs, init_page_idx_to_frame_map_and_locks,
  construct_existing_file_handle, construct_new_file_handle, reset_to_zero_pages_and_page_capacity,
  grow_if_full, add_new_page_without_lock, reset_pages,
  remove_page_idx_and_truncate_if_necessary_without_lock, swizzle, acquired, acquire, test_and_set,
  release_page_lock,
}
use mathlib.Core.Path.{subst}

-- The pages that a handle has are those below its count of pages: each has a lock and a place in
-- the map of frames, and nothing else has. The vectors have room for them.
pub record IsSized {Page : Type 0} (h : FileHandle Page) : Type 0 where
  pub fits : h.num_pages ≤ h.page_capacity
  pub bounded : h.page_capacity < 2 ^ 32
  pub locks_below : (i : ℕ) → i < h.num_pages → h.page_locks i ≢ none
  pub frames_below : (i : ℕ) → i < h.num_pages → h.page_idx_to_frame_map i ≢ none
  pub locks_above : (i : ℕ) → h.num_pages ≤ i → h.page_locks i ≡ none
  pub frames_above : (i : ℕ) → h.num_pages ≤ i → h.page_idx_to_frame_map i ≡ none

abbrev between : ℕ → ℕ → ℕ → Bool
between i n j = leb i j && ltb j (i + n)

module _ {Page : Type 0} where
  added-page_locks :
      (n i : ℕ) (h : FileHandle Page) (j : ℕ)
      → (add_page_locks_and_frame_ptrs n i h).page_locks j
        ≡ (if between i n j then some false else h.page_locks j)
  unfolding add_page_locks_and_frame_ptrs
  added-page_locks zero i h j = ground arith
  added-page_locks (suc n) i h j =
      ground
        (arith, added-page_locks n (i + 1) (add_new_page_lock_and_frame_ptr_without_lock h i) j)

  added-frame_map :
      (n i : ℕ) (h : FileHandle Page) (j : ℕ)
      → (add_page_locks_and_frame_ptrs n i h).page_idx_to_frame_map j
        ≡ (if between i n j then some uint32_max else h.page_idx_to_frame_map j)
  unfolding add_page_locks_and_frame_ptrs
  added-frame_map zero i h j = ground arith
  added-frame_map (suc n) i h j =
      ground (arith, added-frame_map n (i + 1) (add_new_page_lock_and_frame_ptr_without_lock h i) j)

  added-num_pages :
      (n i : ℕ) (h : FileHandle Page)
      → (add_page_locks_and_frame_ptrs n i h).num_pages ≡ h.num_pages
  unfolding add_page_locks_and_frame_ptrs
  added-num_pages zero i h = refl
  added-num_pages (suc n) i h =
      added-num_pages n (i + 1) (add_new_page_lock_and_frame_ptr_without_lock h i)

  added-page_capacity :
      (n i : ℕ) (h : FileHandle Page)
      → (add_page_locks_and_frame_ptrs n i h).page_capacity ≡ h.page_capacity
  unfolding add_page_locks_and_frame_ptrs
  added-page_capacity zero i h = refl
  added-page_capacity (suc n) i h =
      added-page_capacity n (i + 1) (add_new_page_lock_and_frame_ptr_without_lock h i)

  reset-page_locks :
      (n i : ℕ) (h : FileHandle Page) (j : ℕ)
      → (reset_pages n i h).page_locks j ≡ (if between i n j then none else h.page_locks j)
  unfolding reset_pages
  reset-page_locks zero i h j = ground arith
  reset-page_locks (suc n) i h j = ground (
    arith,
    reset-page_locks n (i + 1)
        (record h {
          page_idx_to_frame_map = update h.page_idx_to_frame_map i none;
          page_locks = update h.page_locks i none;
        })
        j,
  )

  reset-frame_map :
      (n i : ℕ) (h : FileHandle Page) (j : ℕ)
      → (reset_pages n i h).page_idx_to_frame_map j
        ≡ (if between i n j then none else h.page_idx_to_frame_map j)
  unfolding reset_pages
  reset-frame_map zero i h j = ground arith
  reset-frame_map (suc n) i h j = ground (
    arith,
    reset-frame_map n (i + 1)
        (record h {
          page_idx_to_frame_map = update h.page_idx_to_frame_map i none;
          page_locks = update h.page_locks i none;
        })
        j,
  )

  reset-page_capacity :
      (n i : ℕ) (h : FileHandle Page) → (reset_pages n i h).page_capacity ≡ h.page_capacity
  unfolding reset_pages
  reset-page_capacity zero i h = refl
  reset-page_capacity (suc n) i h = reset-page_capacity n (i + 1) _

  -- A handle whose vectors were empty beyond their pages is sized once they are filled.
  init-IsSized :
      (h : FileHandle Page)
      → h.num_pages ≤ h.page_capacity
      → h.page_capacity < 2 ^ 32
      → ((i : ℕ) → h.num_pages ≤ i → resize h.page_capacity h.page_locks i ≡ none)
      → ((i : ℕ) → h.num_pages ≤ i → resize h.page_capacity h.page_idx_to_frame_map i ≡ none)
      → IsSized (init_page_idx_to_frame_map_and_locks h)
  unfolding init_page_idx_to_frame_map_and_locks
  init-IsSized h fits bounded locks frames =
      let r : FileHandle Page = record h {
        page_idx_to_frame_map = resize h.page_capacity h.page_idx_to_frame_map;
        page_locks = resize h.page_capacity h.page_locks;
      } in
      let n = h.num_pages in
      let pages = added-num_pages n 0 r in
      record {
        fits = omega (arith, pages, added-page_capacity n 0 r, fits);
        bounded = omega (arith, added-page_capacity n 0 r, bounded);
        locks_below = λ i lt e. ground (arith, added-page_locks n 0 r i, pages);
        frames_below = λ i lt e. ground (arith, added-frame_map n 0 r i, pages);
        locks_above = λ i le.
            ground (arith, added-page_locks n 0 r i, locks i (omega (arith, le, pages)), pages);
        frames_above = λ i le.
            ground (arith, added-frame_map n 0 r i, frames i (omega (arith, le, pages)), pages);
      }

  grow-IsSized :
      (h : FileHandle Page) → IsSized h → h.num_pages + 1 < 2 ^ 32 → IsSized (grow_if_full h)
  unfolding grow_if_full
  grow-IsSized h w small = record {
    fits = ground (arith, w.fits);
    bounded = ground (arith, w.bounded);
    locks_below = λ i lt e. w.locks_below i (ground arith) (ground (arith, w.fits));
    frames_below = λ i lt e. w.frames_below i (ground arith) (ground (arith, w.fits));
    locks_above = λ i le. ground (arith, w.locks_above i);
    frames_above = λ i le. ground (arith, w.frames_above i);
  }

  grow-room :
      (h : FileHandle Page)
      → IsSized h
      → h.num_pages + 1 < 2 ^ 32
      → h.num_pages < (grow_if_full h).page_capacity
  unfolding grow_if_full
  grow-room h w small = ground (arith, w.fits)

  grow-num_pages : (h : FileHandle Page) → (grow_if_full h).num_pages ≡ h.num_pages
  unfolding grow_if_full
  grow-num_pages h = ground arith

  add-IsSized :
      (h : FileHandle Page)
      → IsSized h
      → h.num_pages + 1 < 2 ^ 32
      → IsSized (add_new_page_without_lock h).1
  unfolding add_new_page_without_lock
  add-IsSized h w small =
      let g = grow-IsSized h w small in
      let n = grow-num_pages h in
      let room = grow-room h w small in
      record {
        fits = ground arith;
        bounded = g.bounded;
        locks_below = λ i lt e. ground (arith, g.locks_below i);
        frames_below = λ i lt e. ground (arith, g.frames_below i);
        locks_above = λ i le. ground (arith, g.locks_above i);
        frames_above = λ i le. ground (arith, g.frames_above i);
      }

  remove-IsSized :
      (h : FileHandle Page) (p : ℕ)
      → IsSized h
      → IsSized (remove_page_idx_and_truncate_if_necessary_without_lock h p)
  unfolding remove_page_idx_and_truncate_if_necessary_without_lock
  remove-IsSized h p w = elim (Bool-cases (leb h.num_pages p)) [
    | inl e ↦ rw (e, if◌then◌else◌) w
    | inr e ↦
        let n = h.num_pages - p in
        rw (e, if◌then◌else◌)
          (record {
            fits = ground (arith, reset-page_capacity n p h, w.fits);
            bounded = ground (arith, reset-page_capacity n p h, w.bounded);
            locks_below = λ i lt e'. ground (arith, reset-page_locks n p h i, w.locks_below i);
            frames_below = λ i lt e'. ground (arith, reset-frame_map n p h i, w.frames_below i);
            locks_above = λ i le. ground (arith, reset-page_locks n p h i, w.locks_above i);
            frames_above = λ i le. ground (arith, reset-frame_map n p h i, w.frames_above i);
          })
  ]

  -- The calls on a handle: a page is added while its index is in range, and locks are taken and
  -- given back and frames entered for pages that the handle has.
  pub data Reach : FileHandle Page → Type 0 where
    existing :
        (large : Bool) (pages : ℕ → Page) (file_length : ℕ)
        → Reach (construct_existing_file_handle large pages file_length)
    fresh : (large : Bool) (pages : ℕ → Page) → Reach (construct_new_file_handle large pages)
    reset :
        {h : FileHandle Page} (blank : Page)
        → Reach h
        → Reach (reset_to_zero_pages_and_page_capacity blank h)
    add :
        {h : FileHandle Page}
        → h.num_pages + 1 < 2 ^ 32
        → Reach h
        → Reach (add_new_page_without_lock h).1
    remove :
        {h : FileHandle Page} (p : ℕ)
        → Reach h
        → Reach (remove_page_idx_and_truncate_if_necessary_without_lock h p)
    enter : {h : FileHandle Page} (p i : ℕ) → p < h.num_pages → Reach h → Reach (swizzle h p i)
    lock :
        {h h' : FileHandle Page} (p : ℕ)
        → p < h.num_pages
        → acquire h p ≡ acquired h'
        → Reach h
        → Reach h'
    unlock :
        {h : FileHandle Page} (p : ℕ) → p < h.num_pages → Reach h → Reach (release_page_lock h p)

  update-IsSized :
      (h : FileHandle Page) (p i : ℕ) (b : Bool)
      → p < h.num_pages
      → IsSized h
      → IsSized (swizzle h p i) × IsSized (record h { page_locks = update h.page_locks p (some b) })
  update-IsSized h p i b lt w = (
    record {
      fits = w.fits;
      bounded = w.bounded;
      locks_below = w.locks_below;
      frames_below = λ j lt' e. ground (arith, w.frames_below j);
      locks_above = w.locks_above;
      frames_above = λ j le. ground (arith, w.frames_above j);
    },
    record {
      fits = w.fits;
      bounded = w.bounded;
      locks_below = λ j lt' e. ground (arith, w.locks_below j);
      frames_below = w.frames_below;
      locks_above = λ j le. ground (arith, w.locks_above j);
      frames_above = w.frames_above;
    },
  )

  acquired-eq : (h h' : FileHandle Page) (p : ℕ) → acquire h p ≡ acquired h' → test_and_set h p ≡ h'
  acquired-eq h h' p e = ground arith

  -- After any calls a handle has exactly the locks and the places in the map of frames of its
  -- pages, its vectors have room for them, and their size is a 32-bit number.
  pub reach-IsSized : {h : FileHandle Page} → Reach h → IsSized h
  unfolding construct_existing_file_handle construct_new_file_handle
      reset_to_zero_pages_and_page_capacity
  reach-IsSized (existing large pages file_length) =
      init-IsSized _ (omega arith) (omega arith) (λ i le. ground arith) (λ i le. ground arith)
  reach-IsSized (fresh large pages) =
      init-IsSized _ (omega arith) (omega arith) (λ i le. ground arith) (λ i le. ground arith)
  reach-IsSized (reset blank r) =
      init-IsSized _ (omega arith) (omega arith) (λ i le. ground arith) (λ i le. ground arith)
  reach-IsSized (add {h = h} small r) = add-IsSized h (reach-IsSized r) small
  reach-IsSized (remove {h = h} p r) = remove-IsSized h p (reach-IsSized r)
  reach-IsSized (enter {h = h} p i lt r) = (update-IsSized h p i true lt (reach-IsSized r)).0
  reach-IsSized (lock {h = h} {h' = h'} p lt e r) =
      subst IsSized (acquired-eq h h' p e) (update-IsSized h p 0 true lt (reach-IsSized r)).1
  reach-IsSized (unlock {h = h} p lt r) = (update-IsSized h p 0 false lt (reach-IsSized r)).1
