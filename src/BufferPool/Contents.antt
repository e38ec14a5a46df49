-- ===== src/BufferPool/Contents.antt =====
-- The pool seen from outside, as files of pages: what a page holds, whether it is in a frame or on
-- disk. The calls of src/storage/buffer_manager/buffer_pool.cpp that pin a page and evict another
-- leave every page's contents alone.
use graphflowdb.Base.{
  ℕ, ◌<◌, ◌≡◌, ◌≢◌, refl, sym, ap, ◌∙◌, inl, inr, Bool, true, false, ◌&&◌, arith, if◌then◌else◌,
  Bool-cases, ℕ-cases,
}
use graphflowdb.FileHandle.{uint32_max, is_a_frame}
use graphflowdb.BufferPool.{Frame, BufferPool}
use graphflowdb.BufferPool.Effects.{Retouched, Placed, frame_of, disk_after, is_resident}
use graphflowdb.BufferPool.Invariant.{
  IsSwizzled, IsClean, enter, file_eq, page_eq, pin_eq, resident-frame_of, there, evicted, absent,
  stays, place,
}

module _ {Page : Type 0} where
  abbrev pub contents_at : BufferPool Page → ℕ → ℕ → ℕ → Page
  contents_at s f p i = if is_a_frame i then (s.buffer_cache i).buffer else (s.files f).pages p

  abbrev pub contents : BufferPool Page → ℕ → ℕ → Page
  contents s f p = contents_at s f p (frame_of s f p)

  pub contents-in_frame :
      (s : BufferPool Page) (f p i : ℕ)
      → frame_of s f p ≡ i
      → i ≢ uint32_max
      → contents s f p ≡ (s.buffer_cache i).buffer
  contents-in_frame s f p i e ne = ap (contents_at s f p) e ∙ (ground arith)

  pub contents-on_disk :
      (s : BufferPool Page) (f p : ℕ)
      → frame_of s f p ≡ uint32_max
      → contents s f p ≡ (s.files f).pages p
  contents-on_disk s f p e = ap (contents_at s f p) e

  pub Retouched-contents :
      {s s' : BufferPool Page} → Retouched s s' → (f p : ℕ) → contents s' f p ≡ contents s f p
  Retouched-contents {s = s} {s' = s'} a f p =
      let i = frame_of s f p in
      ap (contents_at s' f p) (a.frames_of f p)
      ∙ ap (λ x. if is_a_frame i then x else (s'.files f).pages p) (a.buffers i)
      ∙ ap (λ x. if is_a_frame i then (s.buffer_cache i).buffer else x) (a.disk f p)

  module _ {s s' : BufferPool Page} {i file page_idx : ℕ} {new : Bool} (w : IsSwizzled s)
      (clean : IsClean s) (out : frame_of s file page_idx ≡ uint32_max)
      (t : Placed s s' i file page_idx new) where
    in_frame : i ≢ uint32_max
    in_frame e = omega (arith, t.in_range, w.few_frames, e)

    -- An evicted page is on disk with what its frame held.
    evicted-pages :
        (f p : ℕ)
        → is_resident (s.buffer_cache i) f p ≡ true
        → (s'.files f).pages p ≡ (s.buffer_cache i).buffer
    evicted-pages f p r = t.disk f p ∙ elim (Bool-cases (s.buffer_cache i).is_dirty) [
      | inl d ↦ dirty (s.buffer_cache i) f p ((s.files f).pages p) r d
      | inr d ↦
          undirty (s.buffer_cache i) f p ((s.files f).pages p) d
          ∙ ap (λ g. (s.files g).pages p) (sym (file_eq (s.buffer_cache i) f p r))
          ∙ ap (s.files (s.buffer_cache i).file_handle_ptr).pages
              (sym (page_eq (s.buffer_cache i) f p r))
          ∙ sym (clean i t.in_range (pin_eq (s.buffer_cache i) f p r) d)
    ]
      where
        dirty :
            (x : Frame Page) (f p : ℕ) (y : Page)
            → is_resident x f p ≡ true
            → x.is_dirty ≡ true
            → disk_after x f p y ≡ x.buffer
        dirty x f p y r d = ground arith

        undirty :
            (x : Frame Page) (f p : ℕ) (y : Page) → x.is_dirty ≡ false → disk_after x f p y ≡ y
        undirty x f p y d = ground arith

    kept-pages :
        (f p : ℕ)
        → is_resident (s.buffer_cache i) f p ≡ false
        → (s'.files f).pages p ≡ (s.files f).pages p
    kept-pages f p r =
        t.disk f p
        ∙ ap
            (λ b.
              if b && (s.buffer_cache i).is_dirty
              then (s.buffer_cache i).buffer
              else (s.files f).pages p)
            r

    not_resident : is_resident (s.buffer_cache i) file page_idx ≡ false
    not_resident = elim (Bool-cases (is_resident (s.buffer_cache i) file page_idx)) [
      | inl r ↦ absurd (in_frame (sym (resident-frame_of w t.in_range file page_idx r) ∙ out))
      | inr r ↦ r
    ]

    enter-pages : (f p : ℕ) → ((enter s' file page_idx i).files f).pages p ≡ (s'.files f).pages p
    enter-pages f p = ground arith

    pub enter-contents :
        (f p : ℕ)
        → (file ≡ f → page_idx ≡ p → new ≡ false)
        → contents (enter s' file page_idx i) f p ≡ contents s f p
    enter-contents f p read = elim (place w out t f p) [
      | there a b e ↦
          contents-in_frame (enter s' file page_idx i) f p i e in_frame
          ∙ t.placed_read (read a b)
          ∙ kept-pages file page_idx not_resident
          ∙ sym (contents-on_disk s file page_idx out)
          ∙ ap (λ g. contents s g page_idx) a
          ∙ ap (contents s f) b
      | evicted e r ↦
          contents-on_disk (enter s' file page_idx i) f p e
          ∙ enter-pages f p
          ∙ evicted-pages f p r
          ∙ sym (contents-in_frame s f p i (resident-frame_of w t.in_range f p r) in_frame)
      | absent e z r ↦
          contents-on_disk (enter s' file page_idx i) f p e
          ∙ enter-pages f p
          ∙ kept-pages f p r
          ∙ sym (contents-on_disk s f p z)
      | stays e n z r ↦
          contents-in_frame (enter s' file page_idx i) f p (frame_of s f p) e z
          ∙ ap (λ x. x.buffer) (t.others (frame_of s f p) n)
          ∙ sym (contents-in_frame s f p (frame_of s f p) refl z)
    ]

    elsewhere :
        (j : ℕ)
        → j < s.num_frames
        → i ≢ j
        → (s.buffer_cache j).pin_count ≡ 0
        → is_resident
            (s.buffer_cache i)
            (s.buffer_cache j).file_handle_ptr
            (s.buffer_cache j).page_idx
          ≡ false
    elsewhere j lt n z =
        let g = (s.buffer_cache j).file_handle_ptr in
        let q = (s.buffer_cache j).page_idx in
        elim (Bool-cases (is_resident (s.buffer_cache i) g q)) [
          | inl r ↦ absurd (
              n (
                sym (resident-frame_of w t.in_range g q r)
                ∙ w.held_frame j lt (λ e. omega (arith, e, z))))
          | inr r ↦ r
        ]

    pub enter-IsClean : IsClean (enter s' file page_idx i)
    enter-IsClean j lt pin undirty = elim (ℕ-cases i j) [
      | inl e ↦ absurd (omega (arith, ap (λ x. (s'.buffer_cache x).pin_count) e, t.placed_pin))
      | inr n ↦
          let o = t.others j n in
          let x = s.buffer_cache j in
          let pin' = sym (ap (λ y. y.pin_count) o) ∙ pin in
          let lt' : j < s.num_frames = omega (arith, lt, t.sizes) in
          ap (λ y. y.buffer) o
          ∙ clean j lt' pin' (sym (ap (λ y. y.is_dirty) o) ∙ undirty)
          ∙ sym (kept-pages x.file_handle_ptr x.page_idx (elsewhere j lt' n pin'))
          ∙ sym (enter-pages x.file_handle_ptr x.page_idx)
          ∙ ap (λ y. ((enter s' file page_idx i).files y.file_handle_ptr).pages y.page_idx) (sym o)
    ]
