-- ===== src/BufferPool/Removal.antt =====
-- Pages taken out of their frames: removePageFromFrame, flushAllDirtyPagesInFrames and
-- removeFilePagesFromFrames of src/storage/buffer_manager/buffer_pool.cpp.
use graphflowdb.Base.{
  ℕ, ◌<◌, ◌≡◌, ◌≢◌, refl, sym, ap, ◌∙◌, inl, inr, Bool, true, false, ◌&&◌, arith, ◌==◌,
  if◌then◌else◌, Bool-cases, ℕ-cases,
}
use graphflowdb.FileHandle.{uint32_max, is_a_frame}
use graphflowdb.BufferPool.{BufferPool, flush_if_dirty, clear_frame_and_unswizzle_without_lock}
use graphflowdb.BufferPool.Remove.{remove_locked}
use graphflowdb.BufferPool.Effects.{frame_of, is_locked, same_page_lem}
use graphflowdb.BufferPool.Eviction.{
  flush-num_frames, flush-buffer_cache, flush-frame_of, flush-is_locked, flush-page_capacity,
}
use graphflowdb.BufferPool.Invariant.{IsSwizzled, IsOnDisk, distinct_frames}
use graphflowdb.BufferPool.Contents.{contents, contents-in_frame, contents-on_disk}

module _ {Page : Type 0} where
  abbrev flushed : Bool → BufferPool Page → ℕ → BufferPool Page
  flushed flush s i = if flush then flush_if_dirty s i else s

  abbrev cleared : BufferPool Page → ℕ → ℕ → ℕ → BufferPool Page
  cleared u i f p = clear_frame_and_unswizzle_without_lock u i f p

  module _ (u : BufferPool Page) (i f p : ℕ) where
    cleared-frame_of :
        (g q : ℕ)
        → frame_of (cleared u i f p) g q ≡ (if f == g && p == q then uint32_max else frame_of u g q)
    cleared-frame_of g q = ground arith

    cleared-pages : (g q : ℕ) → ((cleared u i f p).files g).pages q ≡ (u.files g).pages q
    cleared-pages g q = ground arith

    cleared-is_locked : (g q : ℕ) → is_locked (cleared u i f p) g q ≡ is_locked u g q
    cleared-is_locked g q = ground arith

    cleared-page_capacity :
        (g : ℕ) → ((cleared u i f p).files g).page_capacity ≡ (u.files g).page_capacity
    cleared-page_capacity g = ground arith

    cleared-frame : (j : ℕ) → i ≢ j → (cleared u i f p).buffer_cache j ≡ u.buffer_cache j
    cleared-frame j n = ground arith

    cleared-pin_count : ((cleared u i f p).buffer_cache i).pin_count ≡ uint32_max
    cleared-pin_count = ground arith

  flush-pages_at :
      (s : BufferPool Page) (i f p g q : ℕ)
      → (s.buffer_cache i).file_handle_ptr ≡ f
      → (s.buffer_cache i).page_idx ≡ p
      → ((flush_if_dirty s i).files g).pages q ≡ (
          if f == g && p == q && (s.buffer_cache i).is_dirty
          then (s.buffer_cache i).buffer
          else (s.files g).pages q)
  flush-pages_at s i f p g q a b = ground arith

  flushed-num_frames :
      (b : Bool) (s : BufferPool Page) (i : ℕ) → (flushed b s i).num_frames ≡ s.num_frames
  flushed-num_frames true s i = flush-num_frames s i
  flushed-num_frames false s i = refl

  flushed-buffer_cache :
      (b : Bool) (s : BufferPool Page) (i : ℕ) → (flushed b s i).buffer_cache ≡ s.buffer_cache
  flushed-buffer_cache true s i = flush-buffer_cache s i
  flushed-buffer_cache false s i = refl

  flushed-frame_of :
      (b : Bool) (s : BufferPool Page) (i g q : ℕ) → frame_of (flushed b s i) g q ≡ frame_of s g q
  flushed-frame_of true s i g q = flush-frame_of s i g q
  flushed-frame_of false s i g q = refl

  flushed-is_locked :
      (b : Bool) (s : BufferPool Page) (i g q : ℕ) → is_locked (flushed b s i) g q ≡ is_locked s g q
  flushed-is_locked true s i g q = flush-is_locked s i g q
  flushed-is_locked false s i g q = refl

  flushed-page_capacity :
      (b : Bool) (s : BufferPool Page) (i g : ℕ)
      → ((flushed b s i).files g).page_capacity ≡ (s.files g).page_capacity
  flushed-page_capacity true s i g = flush-page_capacity s i g
  flushed-page_capacity false s i g = refl

  -- A flush changes the frame's own page on disk, and no other.
  flushed-pages :
      (b : Bool) (s : BufferPool Page) (i f p g q : ℕ)
      → (s.buffer_cache i).file_handle_ptr ≡ f
      → (s.buffer_cache i).page_idx ≡ p
      → (f == g && p == q) ≡ false
      → ((flushed b s i).files g).pages q ≡ (s.files g).pages q
  flushed-pages true s i f p g q a c e =
      flush-pages_at s i f p g q a c
      ∙ ap
          (λ b.
            if b && (s.buffer_cache i).is_dirty
            then (s.buffer_cache i).buffer
            else (s.files g).pages q)
          e
  flushed-pages false s i f p g q a c e = refl

  -- A frame in use that is not dirty holds what is on disk, even if it is pinned: nobody is in the
  -- middle of a write.
  abbrev pub IsSettled : BufferPool Page → Type 0
  IsSettled s =
      (i : ℕ)
      → i < s.num_frames
      → (s.buffer_cache i).pin_count ≢ uint32_max
      → (s.buffer_cache i).is_dirty ≡ false
      → IsOnDisk s i

  -- The page in frame `i` of a pool leaves it.
  module _ (s : BufferPool Page) (f p : ℕ) (flush : Bool) (w : IsSwizzled s)
      (n : frame_of s f p ≢ uint32_max) where
    abbrev i : ℕ
    i = frame_of s f p

    abbrev r : BufferPool Page
    r = cleared (flushed flush s i) i f p

    r-num_frames : r.num_frames ≡ s.num_frames
    r-num_frames = flushed-num_frames flush s i

    r-frame_of :
        (g q : ℕ) → frame_of r g q ≡ (if f == g && p == q then uint32_max else frame_of s g q)
    r-frame_of g q =
        cleared-frame_of (flushed flush s i) i f p g q
        ∙ ap (λ x. if f == g && p == q then uint32_max else x) (flushed-frame_of flush s i g q)

    r-frame : (j : ℕ) → i ≢ j → r.buffer_cache j ≡ s.buffer_cache j
    r-frame j m =
        cleared-frame (flushed flush s i) i f p j m ∙ ap (λ b. b j) (flushed-buffer_cache flush s i)

    r-pages : (g q : ℕ) → (f == g && p == q) ≡ false → (r.files g).pages q ≡ (s.files g).pages q
    r-pages g q e =
        cleared-pages (flushed flush s i) i f p g q
        ∙ flushed-pages flush s i f p g q (w.mapped_file f p n) (w.mapped_page f p n) e

    r-full : (j : ℕ) → (r.buffer_cache j).pin_count ≢ uint32_max → i ≢ j
    r-full j h e = h (
        ap (λ k. (r.buffer_cache k).pin_count) (sym e)
        ∙ cleared-pin_count (flushed flush s i) i f p)

    r-place :
        (g q : ℕ)
        → frame_of r g q ≢ uint32_max
        → (frame_of r g q ≡ frame_of s g q) × (i ≢ frame_of s g q) × (frame_of s g q ≢ uint32_max)
    r-place g q ne = elim (Bool-cases (f == g && p == q)) [
      | inl e ↦ absurd (ne (r-frame_of g q ∙ ap (λ b. if b then uint32_max else frame_of s g q) e))
      | inr e ↦
          let at = r-frame_of g q ∙ ap (λ b. if b then uint32_max else frame_of s g q) e in
          let m : frame_of s g q ≢ uint32_max = λ z. ne (at ∙ z) in
          (at, distinct_frames w f p g q n m e, m)
    ]

    -- A page in another frame is another page.
    r-apart :
        (j : ℕ)
        → j < s.num_frames
        → i ≢ j
        → (s.buffer_cache j).pin_count ≢ uint32_max
        → (f == (s.buffer_cache j).file_handle_ptr && p == (s.buffer_cache j).page_idx) ≡ false
    r-apart j lt m h =
        let g = (s.buffer_cache j).file_handle_ptr in
        let q = (s.buffer_cache j).page_idx in
        elim (Bool-cases (f == g && p == q)) [
          | inl e ↦
              let same = same_page_lem f p g q e in
              absurd (
                m (
                  ap (λ x. frame_of s x p) same.0 ∙ ap (frame_of s g) same.1 ∙ w.held_frame j lt h))
          | inr e ↦ e
        ]

    r-IsSwizzled : IsSwizzled r
    r-IsSwizzled = record {
      some_frames = omega (arith, r-num_frames, w.some_frames);
      few_frames = omega (arith, r-num_frames, w.few_frames);
      in_range = λ g q ne.
          omega (arith, r-num_frames, (r-place g q ne).0, w.in_range g q (r-place g q ne).2);
      mapped_file = λ g q ne.
          ap (λ j. (r.buffer_cache j).file_handle_ptr) (r-place g q ne).0
          ∙ ap (λ x. x.file_handle_ptr) (r-frame _ (r-place g q ne).1)
          ∙ w.mapped_file g q (r-place g q ne).2;
      mapped_page = λ g q ne.
          ap (λ j. (r.buffer_cache j).page_idx) (r-place g q ne).0
          ∙ ap (λ x. x.page_idx) (r-frame _ (r-place g q ne).1)
          ∙ w.mapped_page g q (r-place g q ne).2;
      mapped_pin = λ g q ne h. w.mapped_pin g q (r-place g q ne).2 (
          sym (
            ap (λ j. (r.buffer_cache j).pin_count) (r-place g q ne).0
            ∙ ap (λ x. x.pin_count) (r-frame _ (r-place g q ne).1))
          ∙ h);
      held_frame = λ j lt h.
          let m = r-full j h in
          let x = s.buffer_cache j in
          let same = r-frame j m in
          let lt' : j < s.num_frames = omega (arith, lt, r-num_frames) in
          let h' : x.pin_count ≢ uint32_max = λ e. h (ap (λ y. y.pin_count) same ∙ e) in
          ap (λ y. frame_of r y.file_handle_ptr y.page_idx) same
          ∙ r-frame_of x.file_handle_ptr x.page_idx
          ∙ ap (λ b. if b then uint32_max else frame_of s x.file_handle_ptr x.page_idx)
              (r-apart j lt' m h')
          ∙ w.held_frame j lt' h';
    }

    r-IsSettled : IsSettled s → IsSettled r
    r-IsSettled c j lt h d =
        let m = r-full j h in
        let x = s.buffer_cache j in
        let same = r-frame j m in
        let lt' : j < s.num_frames = omega (arith, lt, r-num_frames) in
        let h' : x.pin_count ≢ uint32_max = λ e. h (ap (λ y. y.pin_count) same ∙ e) in
        ap (λ y. y.buffer) same
        ∙ c j lt' h' (sym (ap (λ y. y.is_dirty) same) ∙ d)
        ∙ sym (r-pages x.file_handle_ptr x.page_idx (r-apart j lt' m h'))
        ∙ ap (λ y. (r.files y.file_handle_ptr).pages y.page_idx) (sym same)

    r-contents : (g q : ℕ) → (f == g && p == q) ≡ false → contents r g q ≡ contents s g q
    r-contents g q e = elim (ℕ-cases (frame_of s g q) uint32_max) [
      | inl z ↦
          contents-on_disk r g q
            (r-frame_of g q ∙ ap (λ b. if b then uint32_max else frame_of s g q) e ∙ z)
          ∙ r-pages g q e
          ∙ sym (contents-on_disk s g q z)
      | inr m ↦
          contents-in_frame r g q (frame_of s g q)
            (r-frame_of g q ∙ ap (λ b. if b then uint32_max else frame_of s g q) e) m
          ∙ ap (λ y. y.buffer) (r-frame _ (distinct_frames w f p g q n m e))
          ∙ sym (contents-in_frame s g q (frame_of s g q) refl m)
    ]

    -- The page that leaves is on disk as it was, if it is flushed or on disk already.
    r-flushed : flush ≡ true → IsSettled s → (r.files f).pages p ≡ (s.buffer_cache i).buffer
    r-flushed e c =
        cleared-pages (flushed flush s i) i f p f p
        ∙ ap (λ b. ((flushed b s i).files f).pages p) e
        ∙ flush-pages_at s i f p f p (w.mapped_file f p n) (w.mapped_page f p n)
        ∙ elim (Bool-cases (s.buffer_cache i).is_dirty) [
          | inl d ↦ ground arith
          | inr d ↦
              undirty d
              ∙ ap (λ g. (s.files g).pages p) (sym (w.mapped_file f p n))
              ∙ ap (s.files (s.buffer_cache i).file_handle_ptr).pages (sym (w.mapped_page f p n))
              ∙ sym (c i (w.in_range f p n) (w.mapped_pin f p n) d)
        ]
      where
        undirty :
            (s.buffer_cache i).is_dirty ≡ false
            → (if f == f && p == p && (s.buffer_cache i).is_dirty
                then (s.buffer_cache i).buffer
                else (s.files f).pages p)
              ≡ (s.files f).pages p
        undirty d = ground arith

-- The state after a page has been taken out of its frame, if it was in one, with its contents on
-- disk.
pub record Flushed {Page : Type 0} (s s' : BufferPool Page) (file page_idx : ℕ) : Type 0 where
  pub swizzled : IsSwizzled s'
  pub settled : IsSettled s'
  pub away : frame_of s' file page_idx ≡ uint32_max
  pub stays_away : (f p : ℕ) → frame_of s f p ≡ uint32_max → frame_of s' f p ≡ uint32_max
  pub kept : (f p : ℕ) → contents s' f p ≡ contents s f p
  pub locks : (f p : ℕ) → is_locked s' f p ≡ is_locked s f p
  pub capacities : (f : ℕ) → (s'.files f).page_capacity ≡ (s.files f).page_capacity

module _ {Page : Type 0} where
  pub remove_locked-Flushed :
      (s : BufferPool Page) (f p : ℕ)
      → IsSwizzled s
      → IsSettled s
      → Flushed s (remove_locked true s f p) f p
  remove_locked-Flushed s f p w c = elim (ℕ-cases (frame_of s f p) uint32_max) [
    | inl e ↦
        rw (ap is_a_frame e, if◌then◌else◌)
          (record {
            swizzled = w;
            settled = c;
            away = e;
            stays_away = λ g q z. z;
            kept = λ g q. refl;
            locks = λ g q. refl;
            capacities = λ g. refl;
          })
    | inr n ↦
        rw (found n, if◌then◌else◌)
          (record {
            swizzled = r-IsSwizzled s f p true w n;
            settled = r-IsSettled s f p true w n c;
            away = gone n;
            stays_away = λ g q z. r-frame_of s f p true w n g q ∙ stays (f == g && p == q) z;
            kept = λ g q. elim (Bool-cases (f == g && p == q)) [
              | inl e ↦
                  let same = same_page_lem f p g q e in
                  sym (
                    ap (λ x. contents (r s f p true w n) x p) same.0
                    ∙ ap (contents (r s f p true w n) g) same.1)
                  ∙ contents-on_disk (r s f p true w n) f p (gone n)
                  ∙ r-flushed s f p true w n refl c
                  ∙ sym (contents-in_frame s f p (frame_of s f p) refl n)
                  ∙ ap (λ x. contents s x p) same.0
                  ∙ ap (contents s g) same.1
              | inr e ↦ r-contents s f p true w n g q e
            ];
            locks = λ g q.
                cleared-is_locked (flush_if_dirty s (frame_of s f p)) (frame_of s f p) f p g q
                ∙ flush-is_locked s (frame_of s f p) g q;
            capacities = λ g.
                cleared-page_capacity (flush_if_dirty s (frame_of s f p)) (frame_of s f p) f p g
                ∙ flush-page_capacity s (frame_of s f p) g;
          })
  ]
    where
      found : frame_of s f p ≢ uint32_max → is_a_frame (frame_of s f p) ≡ true
      found n = ground arith

      gone : (n : frame_of s f p ≢ uint32_max) → frame_of (r s f p true w n) f p ≡ uint32_max
      gone n = r-frame_of s f p true w n f p ∙ (ground arith)

      stays : (b : Bool) {x : ℕ} → x ≡ uint32_max → (if b then uint32_max else x) ≡ uint32_max
      stays true e = refl
      stays false e = e
