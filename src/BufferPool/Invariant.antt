-- ===== src/BufferPool/Invariant.antt =====
-- The state that the calls of src/storage/buffer_manager/buffer_pool.cpp keep: the map of a file
-- and the frames agree on where a page is, and an unpinned frame that is not dirty holds what is on
-- disk.
use graphflowdb.Base.{
  ℕ, ◌<◌, ◌≡◌, ◌≢◌, sym, ap, ◌∙◌, inl, inr, Bool, true, false, ◌&&◌, arith, ◌==◌, if◌then◌else◌,
  Bool-cases, ℕ-cases,
}
use graphflowdb.FileHandle.{uint32_max, swizzle}
use graphflowdb.BufferPool.{Frame, BufferPool, set_file}
use graphflowdb.BufferPool.Effects.{
  Alike, Retouched, Alike-Retouched, Placed, frame_of, is_resident, same_page_lem, other_page,
}
use mathlib.Core.Bool.{true≢false}

pub record IsSwizzled {Page : Type 0} (s : BufferPool Page) : Type 0 where
  pub some_frames : 0 < s.num_frames
  pub few_frames : s.num_frames < uint32_max
  pub in_range : (f p : ℕ) → frame_of s f p ≢ uint32_max → frame_of s f p < s.num_frames
  pub mapped_file :
      (f p : ℕ)
      → frame_of s f p ≢ uint32_max
      → (s.buffer_cache (frame_of s f p)).file_handle_ptr ≡ f
  pub mapped_page :
      (f p : ℕ) → frame_of s f p ≢ uint32_max → (s.buffer_cache (frame_of s f p)).page_idx ≡ p
  pub mapped_pin :
      (f p : ℕ)
      → frame_of s f p ≢ uint32_max
      → (s.buffer_cache (frame_of s f p)).pin_count ≢ uint32_max
  pub held_frame :
      (i : ℕ)
      → i < s.num_frames
      → (s.buffer_cache i).pin_count ≢ uint32_max
      → frame_of s (s.buffer_cache i).file_handle_ptr (s.buffer_cache i).page_idx ≡ i

module _ {Page : Type 0} where
  abbrev pub IsClean : BufferPool Page → Type 0
  IsClean s =
      (i : ℕ)
      → i < s.num_frames
      → (s.buffer_cache i).pin_count ≡ 0
      → (s.buffer_cache i).is_dirty ≡ false
      → (s.buffer_cache i).buffer
        ≡ (s.files (s.buffer_cache i).file_handle_ptr).pages (s.buffer_cache i).page_idx

  -- The state after a page has been placed in a frame and the frame entered in the file's map.
  abbrev pub enter : BufferPool Page → ℕ → ℕ → ℕ → BufferPool Page
  enter s file page_idx i = set_file s file (swizzle (s.files file) page_idx i)

  pub enter-frame_of :
      (s : BufferPool Page) (file page_idx i f p : ℕ)
      → frame_of (enter s file page_idx i) f p
        ≡ (if file == f && page_idx == p then i else frame_of s f p)
  enter-frame_of s file page_idx i f p = ground arith

  pub file_eq : (x : Frame Page) (f p : ℕ) → is_resident x f p ≡ true → x.file_handle_ptr ≡ f
  file_eq x f p r = ground arith

  pub page_eq : (x : Frame Page) (f p : ℕ) → is_resident x f p ≡ true → x.page_idx ≡ p
  page_eq x f p r = ground arith

  pub pin_eq : (x : Frame Page) (f p : ℕ) → is_resident x f p ≡ true → x.pin_count ≡ 0
  pin_eq x f p r = ground arith

  pub resident-frame_of :
      {s : BufferPool Page} {i : ℕ}
      → IsSwizzled s
      → i < s.num_frames
      → (f p : ℕ) → is_resident (s.buffer_cache i) f p ≡ true
      → frame_of s f p ≡ i
  resident-frame_of {s = s} {i = i} w lt f p r =
      let x = s.buffer_cache i in
      ap (λ g. frame_of s g p) (sym (file_eq x f p r))
      ∙ ap (frame_of s x.file_handle_ptr) (sym (page_eq x f p r))
      ∙ w.held_frame i lt (λ e. omega (arith, e, pin_eq x f p r))

  -- A frame that is given away holds a page only if it is resident in it.
  given_away :
      {s s' : BufferPool Page} {i file page_idx : ℕ} {new : Bool}
      → IsSwizzled s
      → Placed s s' i file page_idx new
      → (f p : ℕ) → is_resident (s.buffer_cache i) f p ≡ false
      → frame_of s f p ≢ uint32_max
      → i ≢ frame_of s f p
  given_away {s = s} {i = i} w t f p r ne e =
      let ptr = ap (λ x. (s.buffer_cache x).file_handle_ptr) e ∙ w.mapped_file f p ne in
      let page = ap (λ x. (s.buffer_cache x).page_idx) e ∙ w.mapped_page f p ne in
      elim t.available [
        | inl z ↦ w.mapped_pin f p ne (ap (λ x. (s.buffer_cache x).pin_count) (sym e) ∙ z)
        | inr z ↦ true≢false (sym (holds (s.buffer_cache i) f p z ptr page) ∙ r)
      ]
    where
      holds :
          (x : Frame Page) (f p : ℕ)
          → x.pin_count ≡ 0
          → x.file_handle_ptr ≡ f
          → x.page_idx ≡ p
          → is_resident x f p ≡ true
      holds x f p a b c = ground arith

  module _ {s s' : BufferPool Page} {i file page_idx : ℕ} {new : Bool} (w : IsSwizzled s)
      (out : frame_of s file page_idx ≡ uint32_max) (t : Placed s s' i file page_idx new) where
    -- Where a page is after the call, and that a page in another frame is where it was.
    pub data Place (f p : ℕ) : Type 0 where
      there : file ≡ f → page_idx ≡ p → frame_of (enter s' file page_idx i) f p ≡ i → Place f p
      evicted :
          frame_of (enter s' file page_idx i) f p ≡ uint32_max
          → is_resident (s.buffer_cache i) f p ≡ true
          → Place f p
      absent :
          frame_of (enter s' file page_idx i) f p ≡ uint32_max
          → frame_of s f p ≡ uint32_max
          → is_resident (s.buffer_cache i) f p ≡ false
          → Place f p
      stays :
          (frame_of (enter s' file page_idx i) f p ≡ frame_of s f p)
          → i ≢ frame_of s f p
          → frame_of s f p ≢ uint32_max
          → is_resident (s.buffer_cache i) f p ≡ false
          → Place f p

    pub place : (f p : ℕ) → Place f p
    place f p = elim (Bool-cases (file == f && page_idx == p)) [
      | inl e ↦
          let same = same_page_lem file page_idx f p e in
          there same.0 same.1 (enter-frame_of s' file page_idx i f p ∙ (rw (e, if◌then◌else◌)))
      | inr e ↦
          let at =
            enter-frame_of s' file page_idx i f p
            ∙ ap (λ b. if b then i else frame_of s' f p) e
            ∙ t.frames_of f p in
          elim (Bool-cases (is_resident (s.buffer_cache i) f p)) [
            | inl r ↦ evicted (at ∙ ap (λ b. if b then uint32_max else frame_of s f p) r) r
            | inr r ↦
                let at' = at ∙ ap (λ b. if b then uint32_max else frame_of s f p) r in
                elim (ℕ-cases (frame_of s f p) uint32_max) [
                  | inl z ↦ absent (at' ∙ z) z r
                  | inr z ↦ stays at' (given_away w t f p r z) z r
                ]
          ]
    ]

    abbrev E : BufferPool Page
    E = enter s' file page_idx i

    entered : frame_of E file page_idx ≡ i
    entered = enter-frame_of s' file page_idx i file page_idx ∙ (ground arith)

    keeps :
        (j : ℕ)
        → j < s.num_frames
        → i ≢ j
        → (s.buffer_cache j).pin_count ≢ uint32_max
        → frame_of E (s.buffer_cache j).file_handle_ptr (s.buffer_cache j).page_idx ≡ j
    keeps j lt n h =
        let g = (s.buffer_cache j).file_handle_ptr in
        let q = (s.buffer_cache j).page_idx in
        let at = w.held_frame j lt h in
        elim (place g q) [
          | there a b e ↦ absurd (
              omega (
                arith,
                w.few_frames,
                out,
                ap (λ x. frame_of s x page_idx) a ∙ ap (frame_of s g) b ∙ at,
              ))
          | evicted e r ↦ absurd (n (sym (resident-frame_of w t.in_range g q r) ∙ at))
          | absent e z _ ↦ absurd (omega (arith, w.few_frames, at, z))
          | stays e _ _ _ ↦ e ∙ at
        ]

    pub enter-IsSwizzled : IsSwizzled (enter s' file page_idx i)
    enter-IsSwizzled = record {
      some_frames = omega (arith, t.sizes, w.some_frames);
      few_frames = omega (arith, t.sizes, w.few_frames);
      in_range = λ f p ne. elim (place f p) [
        | there a b e ↦ omega (arith, e, t.in_range, t.sizes)
        | evicted e _ ↦ absurd (ne e)
        | absent e _ _ ↦ absurd (ne e)
        | stays e n z _ ↦ omega (arith, e, w.in_range f p z, t.sizes)
      ];
      mapped_file = λ f p ne. elim (place f p) [
        | there a b e ↦ ap (λ x. (s'.buffer_cache x).file_handle_ptr) e ∙ t.placed_file ∙ a
        | evicted e _ ↦ absurd (ne e)
        | absent e _ _ ↦ absurd (ne e)
        | stays e n z _ ↦
            ap (λ x. (s'.buffer_cache x).file_handle_ptr) e
            ∙ ap (λ x. x.file_handle_ptr) (t.others _ n)
            ∙ w.mapped_file f p z
      ];
      mapped_page = λ f p ne. elim (place f p) [
        | there a b e ↦ ap (λ x. (s'.buffer_cache x).page_idx) e ∙ t.placed_page ∙ b
        | evicted e _ ↦ absurd (ne e)
        | absent e _ _ ↦ absurd (ne e)
        | stays e n z _ ↦
            ap (λ x. (s'.buffer_cache x).page_idx) e
            ∙ ap (λ x. x.page_idx) (t.others _ n)
            ∙ w.mapped_page f p z
      ];
      mapped_pin = λ f p ne h. elim (place f p) [
        | there a b e ↦ omega (arith, ap (λ x. (s'.buffer_cache x).pin_count) e, t.placed_pin)
        | evicted e _ ↦ absurd (ne e)
        | absent e _ _ ↦ absurd (ne e)
        | stays e n z _ ↦ w.mapped_pin f p z (
            sym (ap (λ x. (s'.buffer_cache x).pin_count) e ∙ ap (λ x. x.pin_count) (t.others _ n))
            ∙ h)
      ];
      held_frame = λ j lt h. elim (ℕ-cases i j) [
        | inl e ↦
            ap (λ x. frame_of E (s'.buffer_cache x).file_handle_ptr (s'.buffer_cache x).page_idx)
              (sym e)
            ∙ ap (λ x. frame_of E x (s'.buffer_cache i).page_idx) t.placed_file
            ∙ ap (frame_of E file) t.placed_page
            ∙ entered
            ∙ e
        | inr n ↦
            ap (λ x. frame_of E x.file_handle_ptr x.page_idx) (t.others j n)
            ∙ keeps j (omega (arith, t.sizes)) n (λ z. h (ap (λ x. x.pin_count) (t.others j n) ∙ z))
      ];
    }

  -- Two pages are in two frames.
  pub distinct_frames :
      {s : BufferPool Page}
      → IsSwizzled s
      → (f p g q : ℕ) → frame_of s f p ≢ uint32_max
      → frame_of s g q ≢ uint32_max
      → (f == g && p == q) ≡ false
      → frame_of s f p ≢ frame_of s g q
  distinct_frames {s = s} w f p g q n m e same =
      other_page f p g q
        (sym (w.mapped_file f p n)
          ∙ ap (λ k. (s.buffer_cache k).file_handle_ptr) same
          ∙ w.mapped_file g q m)
        (sym (w.mapped_page f p n)
          ∙ ap (λ k. (s.buffer_cache k).page_idx) same
          ∙ w.mapped_page g q m)
        e

  pub Retouched-IsSwizzled :
      {s s' : BufferPool Page} → Retouched s s' → IsSwizzled s → IsSwizzled s'
  Retouched-IsSwizzled {s = s} {s' = s'} a w = record {
    some_frames = omega (arith, a.sizes, w.some_frames);
    few_frames = omega (arith, a.sizes, w.few_frames);
    in_range = λ f p ne. omega (arith, a.sizes, a.frames_of f p, w.in_range f p (was f p ne));
    mapped_file = λ f p ne.
        ap (λ i. (s'.buffer_cache i).file_handle_ptr) (a.frames_of f p)
        ∙ a.frame_files _
        ∙ w.mapped_file f p (was f p ne);
    mapped_page = λ f p ne.
        ap (λ i. (s'.buffer_cache i).page_idx) (a.frames_of f p)
        ∙ a.frame_pages _
        ∙ w.mapped_page f p (was f p ne);
    mapped_pin = λ f p ne h.
        a.full (frame_of s f p) (w.in_range f p (was f p ne)) (w.mapped_pin f p (was f p ne))
          (ap (λ i. (s'.buffer_cache i).pin_count) (sym (a.frames_of f p)) ∙ h);
    held_frame = λ i lt h.
        let lt' : i < s.num_frames = omega (arith, lt, a.sizes) in
        a.frames_of _ _
        ∙ ap (λ g. frame_of s g (s'.buffer_cache i).page_idx) (a.frame_files i)
        ∙ ap (frame_of s (s.buffer_cache i).file_handle_ptr) (a.frame_pages i)
        ∙ w.held_frame i lt' (λ e. h (a.empty i lt' e));
  }
    where
      was : (f p : ℕ) → frame_of s' f p ≢ uint32_max → frame_of s f p ≢ uint32_max
      was f p ne e = ne (a.frames_of f p ∙ e)

  -- The frame holds what is on disk.
  abbrev pub IsOnDisk : BufferPool Page → ℕ → Type 0
  IsOnDisk s i =
      (s.buffer_cache i).buffer
      ≡ (s.files (s.buffer_cache i).file_handle_ptr).pages (s.buffer_cache i).page_idx

  pub Retouched-IsOnDisk :
      {s s' : BufferPool Page} → Retouched s s' → (i : ℕ) → IsOnDisk s i → IsOnDisk s' i
  Retouched-IsOnDisk {s = s} {s' = s'} a i h =
      a.buffers i
      ∙ h
      ∙ ap (λ g. (s.files g).pages (s.buffer_cache i).page_idx) (sym (a.frame_files i))
      ∙ ap (s.files (s'.buffer_cache i).file_handle_ptr).pages (sym (a.frame_pages i))
      ∙ sym (a.disk _ _)

  -- A retouched state is clean when its unpinned frames that are not dirty were so before.
  pub Retouched-IsClean :
      {s s' : BufferPool Page}
      → Retouched s s'
      → ((i : ℕ)
          → i < s.num_frames
          → (s'.buffer_cache i).pin_count ≡ 0
          → (s'.buffer_cache i).is_dirty ≡ false
          → ((s.buffer_cache i).pin_count ≡ 0) × ((s.buffer_cache i).is_dirty ≡ false))
      → IsClean s
      → IsClean s'
  Retouched-IsClean {s = s} {s' = s'} a before c i lt z d =
      let lt' : i < s.num_frames = omega (arith, lt, a.sizes) in
      let was = before i lt' z d in Retouched-IsOnDisk a i (c i lt' was.0 was.1)

  pub Alike-IsClean : {s s' : BufferPool Page} → Alike s s' → IsClean s → IsClean s'
  Alike-IsClean a = Retouched-IsClean (Alike-Retouched a) (λ i lt z d.
      (sym (ap (λ x. x.pin_count) (a.frames i)) ∙ z, sym (ap (λ x. x.is_dirty) (a.frames i)) ∙ d))
