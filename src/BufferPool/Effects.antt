-- ===== src/BufferPool/Effects.antt =====
-- What a call of the pool can change, read off its states: the pages that frames hold, the frames
-- of pages, the pages on disk and the page locks. The clock, the metrics and the marks of recent
-- access are left out.
use graphflowdb.Base.{
  ℕ, ◌<◌, ◌≡◌, ◌≢◌, refl, sym, ap, ◌∙◌, ◌⊎◌, inl, inr, Bool, true, false, ◌&&◌, some, arith, ◌==◌,
  if◌then◌else◌,
}
use graphflowdb.FileHandle.{uint32_max, get_frame_idx}
use graphflowdb.BufferPool.{Frame, BufferPool}

pub same_page_lem : (g q f p : ℕ) → (g == f && q == p) ≡ true → (g ≡ f) × (q ≡ p)
same_page_lem g q f p h = (ground arith, ground arith)

pub other_page : (f p g q : ℕ) → f ≡ g → p ≡ q → (f == g && p == q) ≡ false → ⊥
other_page f p g q a b e = ground arith

module _ {Page : Type 0} where
  abbrev pub frame_of : BufferPool Page → ℕ → ℕ → ℕ
  frame_of s file page_idx = get_frame_idx (s.files file) page_idx

  abbrev pub is_locked : BufferPool Page → ℕ → ℕ → Bool
  is_locked s file page_idx = elim ((s.files file).page_locks page_idx) [
    | some true ↦ true
    | _ ↦ false
  ]

  abbrev pub still : Frame Page → Frame Page
  still frame = record frame { recently_accessed = false }

  -- Whether the frame is unpinned and holds the page, so that its eviction takes that page out.
  abbrev pub is_resident : Frame Page → ℕ → ℕ → Bool
  is_resident frame file page_idx =
      frame.pin_count == 0 && frame.file_handle_ptr == file && frame.page_idx == page_idx

  abbrev pub frame_after : Frame Page → ℕ → ℕ → ℕ → ℕ
  frame_after evicted file page_idx i = if is_resident evicted file page_idx then uint32_max else i

  abbrev pub disk_after : Frame Page → ℕ → ℕ → Page → Page
  disk_after evicted file page_idx page =
      if is_resident evicted file page_idx && evicted.is_dirty then evicted.buffer else page

-- Two states that hold the same pages in the same frames.
pub record Alike {Page : Type 0} (s s' : BufferPool Page) : Type 0 where
  pub sizes : s'.num_frames ≡ s.num_frames
  pub frames : (i : ℕ) → still (s'.buffer_cache i) ≡ still (s.buffer_cache i)
  pub frames_of : (file page_idx : ℕ) → frame_of s' file page_idx ≡ frame_of s file page_idx
  pub disk : (file page_idx : ℕ) → (s'.files file).pages page_idx ≡ (s.files file).pages page_idx

-- Two states with the same pages in the same frames, where the counts of pins, the dirty marks and
-- the locks may differ, but an empty frame stays empty and a full one full.
pub record Retouched {Page : Type 0} (s s' : BufferPool Page) : Type 0 where
  pub sizes : s'.num_frames ≡ s.num_frames
  pub frame_files :
      (i : ℕ) → (s'.buffer_cache i).file_handle_ptr ≡ (s.buffer_cache i).file_handle_ptr
  pub frame_pages : (i : ℕ) → (s'.buffer_cache i).page_idx ≡ (s.buffer_cache i).page_idx
  pub buffers : (i : ℕ) → (s'.buffer_cache i).buffer ≡ (s.buffer_cache i).buffer
  pub frames_of : (file page_idx : ℕ) → frame_of s' file page_idx ≡ frame_of s file page_idx
  pub disk : (file page_idx : ℕ) → (s'.files file).pages page_idx ≡ (s.files file).pages page_idx
  pub full :
      (i : ℕ)
      → i < s.num_frames
      → (s.buffer_cache i).pin_count ≢ uint32_max
      → (s'.buffer_cache i).pin_count ≢ uint32_max
  pub empty :
      (i : ℕ)
      → i < s.num_frames
      → (s.buffer_cache i).pin_count ≡ uint32_max
      → (s'.buffer_cache i).pin_count ≡ uint32_max

-- States that are alike and have the same page locks held.
pub record Similar {Page : Type 0} (s s' : BufferPool Page) : Type 0 where
  pub alike : Alike s s'
  pub locks : (file page_idx : ℕ) → is_locked s' file page_idx ≡ is_locked s file page_idx
  pub capacities : (file : ℕ) → (s'.files file).page_capacity ≡ (s.files file).page_capacity

-- The state `s'` holds the page in frame `i`, whose former page, if it had one, has left it and is
-- on disk.
pub record Placed {Page : Type 0} (s s' : BufferPool Page) (i file page_idx : ℕ) (new : Bool)
    : Type 0 where
  pub sizes : s'.num_frames ≡ s.num_frames
  pub in_range : i < s.num_frames
  pub available : ((s.buffer_cache i).pin_count ≡ uint32_max) ⊎ ((s.buffer_cache i).pin_count ≡ 0)
  pub placed_file : (s'.buffer_cache i).file_handle_ptr ≡ file
  pub placed_page : (s'.buffer_cache i).page_idx ≡ page_idx
  pub placed_pin : (s'.buffer_cache i).pin_count ≡ 1
  pub placed_new : new ≡ true → (s'.buffer_cache i).buffer ≡ (s.buffer_cache i).buffer
  pub placed_read : new ≡ false → (s'.buffer_cache i).buffer ≡ (s'.files file).pages page_idx
  pub others : (j : ℕ) → i ≢ j → still (s'.buffer_cache j) ≡ still (s.buffer_cache j)
  pub frames_of : (f p : ℕ) → frame_of s' f p ≡ frame_after (s.buffer_cache i) f p (frame_of s f p)
  pub disk :
      (f p : ℕ) → (s'.files f).pages p ≡ disk_after (s.buffer_cache i) f p ((s.files f).pages p)
  pub locks : (f p : ℕ) → is_locked s' f p ≡ is_locked s f p
  pub capacities : (f : ℕ) → (s'.files f).page_capacity ≡ (s.files f).page_capacity

module _ {Page : Type 0} where
  pub Alike-refl : (s : BufferPool Page) → Alike s s
  Alike-refl s = record {
    sizes = refl;
    frames = λ i. refl;
    frames_of = λ f p. refl;
    disk = λ f p. refl;
  }

  pub Alike-trans : {s t u : BufferPool Page} → Alike s t → Alike t u → Alike s u
  Alike-trans a b = record {
    sizes = b.sizes ∙ a.sizes;
    frames = λ i. b.frames i ∙ a.frames i;
    frames_of = λ f p. b.frames_of f p ∙ a.frames_of f p;
    disk = λ f p. b.disk f p ∙ a.disk f p;
  }

  pub Alike-Retouched : {s s' : BufferPool Page} → Alike s s' → Retouched s s'
  Alike-Retouched a = record {
    sizes = a.sizes;
    frame_files = λ i. ap (λ x. x.file_handle_ptr) (a.frames i);
    frame_pages = λ i. ap (λ x. x.page_idx) (a.frames i);
    buffers = λ i. ap (λ x. x.buffer) (a.frames i);
    frames_of = a.frames_of;
    disk = a.disk;
    full = λ i lt h e. h (sym (ap (λ x. x.pin_count) (a.frames i)) ∙ e);
    empty = λ i lt e. ap (λ x. x.pin_count) (a.frames i) ∙ e;
  }

  pub Similar-refl : (s : BufferPool Page) → Similar s s
  Similar-refl s = record { alike = Alike-refl s; locks = λ f p. refl; capacities = λ f. refl }

  pub Similar-trans : {s t u : BufferPool Page} → Similar s t → Similar t u → Similar s u
  Similar-trans a b = record {
    alike = Alike-trans a.alike b.alike;
    locks = λ f p. b.locks f p ∙ a.locks f p;
    capacities = λ f. b.capacities f ∙ a.capacities f;
  }

  pub Alike-pin :
      {s s' : BufferPool Page}
      → Alike s s'
      → (i : ℕ) → (s'.buffer_cache i).pin_count ≡ (s.buffer_cache i).pin_count
  Alike-pin a i = ap (λ f. f.pin_count) (a.frames i)

  pub Similar-Placed :
      {s t u : BufferPool Page} {i file page_idx : ℕ} {new : Bool}
      → Similar s t
      → Placed t u i file page_idx new
      → Placed s u i file page_idx new
  Similar-Placed {s = s} {t = t} {u = u} {i = i} a b = record {
    sizes = b.sizes ∙ a.alike.sizes;
    in_range = omega (arith, a.alike.sizes, b.in_range);
    available = elim b.available [
      | inl e ↦ inl (sym (Alike-pin a.alike i) ∙ e)
      | inr e ↦ inr (sym (Alike-pin a.alike i) ∙ e)
    ];
    placed_file = b.placed_file;
    placed_page = b.placed_page;
    placed_pin = b.placed_pin;
    placed_new = λ e. b.placed_new e ∙ ap (λ f. f.buffer) (a.alike.frames i);
    placed_read = b.placed_read;
    others = λ j ne. b.others j ne ∙ a.alike.frames j;
    frames_of = λ f p.
        b.frames_of f p
        ∙ ap (λ x. frame_after x f p (frame_of t f p)) (a.alike.frames i)
        ∙ ap (frame_after (s.buffer_cache i) f p) (a.alike.frames_of f p);
    disk = λ f p.
        b.disk f p
        ∙ ap (λ x. disk_after x f p ((t.files f).pages p)) (a.alike.frames i)
        ∙ ap (disk_after (s.buffer_cache i) f p) (a.alike.disk f p);
    locks = λ f p. b.locks f p ∙ a.locks f p;
    capacities = λ f. b.capacities f ∙ a.capacities f;
  }
