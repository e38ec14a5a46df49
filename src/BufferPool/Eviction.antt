-- ===== src/BufferPool/Eviction.antt =====
-- A page put in a frame: readNewPageIntoFrame and the eviction of tryEvict, of
-- src/storage/buffer_manager/buffer_pool.cpp, leave the page in the frame and the page that was
-- there on disk.
use graphflowdb.Base.{
  ℕ, ◌<◌, ◌≡◌, ◌≢◌, refl, sym, ap, ◌∙◌, inl, inr, Bool, true, false, ◌&&◌, arith, ◌==◌,
  if◌then◌else◌, Bool-cases,
}
use graphflowdb.FileHandle.{uint32_max, release_page_lock, test_and_set}
use graphflowdb.BufferPool.{
  BufferPool, set_file, flush_if_dirty, clear_frame_and_unswizzle_without_lock,
  read_new_page_into_frame,
}
use graphflowdb.BufferPool.Claim.{evict}
use graphflowdb.BufferPool.Effects.{Placed, is_locked, frame_of, disk_after, still, same_page_lem}

module _ {Page : Type 0} where
  pub fill_Placed :
      (s : BufferPool Page) (i file page_idx : ℕ) (new : Bool)
      → i < s.num_frames
      → (s.buffer_cache i).pin_count ≡ uint32_max
      → Placed s (read_new_page_into_frame s i file page_idx new) i file page_idx new
  fill_Placed s i file page_idx new h e = record {
    sizes = refl;
    in_range = h;
    available = inl e;
    placed_file = ground arith;
    placed_page = ground arith;
    placed_pin = ground arith;
    placed_new = λ e'. ground arith;
    placed_read = λ e'. ground arith;
    others = λ j ne. ground arith;
    frames_of = λ f p. ground arith;
    disk = λ f p. ground arith;
    locks = λ f p. refl;
    capacities = λ f. refl;
  }

  module _ (s : BufferPool Page) (i : ℕ) where
    pub flush-num_frames : (flush_if_dirty s i).num_frames ≡ s.num_frames
    flush-num_frames = ground arith

    pub flush-buffer_cache : (flush_if_dirty s i).buffer_cache ≡ s.buffer_cache
    flush-buffer_cache = ground arith

    pub flush-frame_of : (f p : ℕ) → frame_of (flush_if_dirty s i) f p ≡ frame_of s f p
    flush-frame_of f p = ground arith

    pub flush-is_locked : (f p : ℕ) → is_locked (flush_if_dirty s i) f p ≡ is_locked s f p
    flush-is_locked f p = ground arith

    pub flush-page_capacity :
        (f : ℕ) → ((flush_if_dirty s i).files f).page_capacity ≡ (s.files f).page_capacity
    flush-page_capacity f = ground arith

    pub flush-pages :
        (f p : ℕ)
        → (s.buffer_cache i).pin_count ≡ 0
        → ((flush_if_dirty s i).files f).pages p
          ≡ disk_after (s.buffer_cache i) f p ((s.files f).pages p)
    flush-pages f p e = ground arith

  -- The frame is cleared, its page's lock given back and the new page read.
  abbrev refill : BufferPool Page → ℕ → ℕ → ℕ → ℕ → ℕ → Bool → BufferPool Page
  refill u i g q file page_idx new =
      let cleared = clear_frame_and_unswizzle_without_lock u i g q in
      read_new_page_into_frame (set_file cleared g (release_page_lock (cleared.files g) q)) i file
        page_idx new

  module _ (u : BufferPool Page) (i g q file page_idx : ℕ) (new : Bool) where
    refill-frame :
        (j : ℕ) → i ≢ j → (refill u i g q file page_idx new).buffer_cache j ≡ u.buffer_cache j
    refill-frame j ne = ground arith

    refill-buffer :
        ((refill u i g q file page_idx new).buffer_cache i).buffer
        ≡ (if new then (u.buffer_cache i).buffer else (u.files file).pages page_idx)
    refill-buffer = ground arith

    refill-pages :
        (f p : ℕ) → ((refill u i g q file page_idx new).files f).pages p ≡ (u.files f).pages p
    refill-pages f p = ground arith

    refill-frame_of :
        (f p : ℕ)
        → frame_of (refill u i g q file page_idx new) f p
          ≡ (if g == f && q == p then uint32_max else frame_of u f p)
    refill-frame_of f p = ground arith

    refill-is_locked :
        (f p : ℕ)
        → is_locked (refill u i g q file page_idx new) f p
          ≡ (if g == f && q == p then false else is_locked u f p)
    refill-is_locked f p = ground arith

    refill-page_capacity :
        (f : ℕ)
        → ((refill u i g q file page_idx new).files f).page_capacity ≡ (u.files f).page_capacity
    refill-page_capacity f = ground arith

  abbrev pub lock_page : BufferPool Page → ℕ → ℕ → BufferPool Page
  lock_page s g q = set_file s g (test_and_set (s.files g) q)

  module _ (s : BufferPool Page) (g q : ℕ) where
    pub lock_page-frame_of : (f p : ℕ) → frame_of (lock_page s g q) f p ≡ frame_of s f p
    lock_page-frame_of f p = ground arith

    pub lock_page-pages : (f p : ℕ) → ((lock_page s g q).files f).pages p ≡ (s.files f).pages p
    lock_page-pages f p = ground arith

    pub lock_page-is_locked :
        (f p : ℕ)
        → is_locked (lock_page s g q) f p ≡ (if g == f && q == p then true else is_locked s f p)
    lock_page-is_locked f p = ground arith

    pub lock_page-page_capacity :
        (f : ℕ) → ((lock_page s g q).files f).page_capacity ≡ (s.files f).page_capacity
    lock_page-page_capacity f = ground arith

  pub unlocks :
      (s : BufferPool Page) (g q f p : ℕ)
      → is_locked s g q ≡ false
      → (if g == f && q == p then false else (if g == f && q == p then true else is_locked s f p))
        ≡ is_locked s f p
  unlocks s g q f p free = elim (Bool-cases (g == f && q == p)) [
    | inl e ↦
        let same = same_page_lem g q f p e in
        (rw e) ∙ sym free ∙ ap (λ x. is_locked s x q) same.0 ∙ ap (is_locked s f) same.1
    | inr e ↦ rw (e, if◌then◌else◌)
  ]

  pub evict-Placed :
      (s : BufferPool Page) (i file page_idx : ℕ) (new : Bool)
      → i < s.num_frames
      → (s.buffer_cache i).pin_count ≡ 0
      → is_locked s (s.buffer_cache i).file_handle_ptr (s.buffer_cache i).page_idx ≡ false
      → Placed s
          (evict
            (lock_page s (s.buffer_cache i).file_handle_ptr (s.buffer_cache i).page_idx)
            i
            file
            page_idx
            new)
          i
          file
          page_idx
          new
  unfolding evict
  evict-Placed s i file page_idx new lt e free =
      let g = (s.buffer_cache i).file_handle_ptr in
      let q = (s.buffer_cache i).page_idx in
      let t = lock_page s g q in
      let u = flush_if_dirty t i in
      record {
        sizes = flush-num_frames t i;
        in_range = lt;
        available = inr e;
        placed_file = ground arith;
        placed_page = ground arith;
        placed_pin = ground arith;
        placed_new =
            λ e'. refill-buffer u i g q file page_idx new ∙ (rw (e', flush-buffer_cache t i));
        placed_read = λ e'.
            refill-buffer u i g q file page_idx new
            ∙ (rw e')
            ∙ sym (refill-pages u i g q file page_idx new file page_idx);
        others = λ j ne.
            ap still (refill-frame u i g q file page_idx new j ne)
            ∙ ap (λ b. still (b j)) (flush-buffer_cache t i);
        frames_of = λ f p.
            refill-frame_of u i g q file page_idx new f p
            ∙ ap (λ x. if g == f && q == p then uint32_max else x)
                (flush-frame_of t i f p ∙ lock_page-frame_of s g q f p)
            ∙ (ground arith);
        disk = λ f p.
            refill-pages u i g q file page_idx new f p
            ∙ flush-pages t i f p e
            ∙ ap (disk_after (s.buffer_cache i) f p) (lock_page-pages s g q f p);
        locks = λ f p.
            refill-is_locked u i g q file page_idx new f p
            ∙ ap (λ x. if g == f && q == p then false else x)
                (flush-is_locked t i f p ∙ lock_page-is_locked s g q f p)
            ∙ unlocks s g q f p free;
        capacities = λ f.
            refill-page_capacity u i g q file page_idx new f
            ∙ flush-page_capacity t i f
            ∙ lock_page-page_capacity s g q f;
      }
