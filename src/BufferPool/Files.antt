-- ===== src/BufferPool/Files.antt =====
-- The pool as its callers use it: pins, writes to pinned pages, dirty marks and unpins, through the
-- functions of src/storage/buffer_manager/buffer_pool.cpp, against files that are maps from pages
-- to their contents.
use graphflowdb.Base.{
  ℕ, ◌<◌, ◌≤◌, ◌≡◌, ◌≢◌, refl, sym, ap, ◌∙◌, inl, inr, true, false, ◌&&◌, arith, ◌==◌,
  if◌then◌else◌, Bool-cases, ℕ-cases, List, [], ◌∷◌, ==_of_ne,
}
use graphflowdb.FileHandle.{uint32_max}
use graphflowdb.BufferPool.{Frame, BufferPool, returned}
use graphflowdb.BufferPool.Pin.{pin, unpin, set_pinned_page_dirty}
use graphflowdb.BufferPool.Effects.{frame_of, same_page_lem, other_page}
use graphflowdb.BufferPool.Invariant.{IsSwizzled, IsClean, distinct_frames}
use graphflowdb.BufferPool.Contents.{contents, contents-in_frame, contents_at}
use graphflowdb.BufferPool.Pinning.{HasRoom, Pins, Pinned, pin-Pins}
use graphflowdb.BufferPool.Release.{
  IsPinned, Kept, MarksOrThrows, set_pinned_page_dirty-MarksOrThrows,
}
use graphflowdb.BufferPool.Unpinning.{IsReleasable, Unpins, unpin-Unpins, write_buffer}
use mathlib.Core.Path.{subst}

-- What a caller does with a page. A created page is pinned without being read, and written at once.
pub data Access (Page : Type 0) : Type 0 where
  read mark release : ℕ → ℕ → Access Page
  create write : ℕ → ℕ → Page → Access Page

==_of_eq : (a b : ℕ) → a ≡ b → (a == b) ≡ true
==_of_eq a b e = ground arith

module _ {Page : Type 0} where
  -- The files as plain maps: only a write changes a page.
  abbrev pub put : (ℕ → ℕ → Page) → ℕ → ℕ → Page → ℕ → ℕ → Page
  put m f p page g q = if f == g && p == q then page else m g q

  abbrev pub replay : (ℕ → ℕ → Page) → List (Access Page) → ℕ → ℕ → Page
  replay m [] = m
  replay m (create f p page ∷ rest) = replay (put m f p page) rest
  replay m (write f p page ∷ rest) = replay (put m f p page) rest
  replay m (read f p ∷ rest) = replay m rest
  replay m (mark f p ∷ rest) = replay m rest
  replay m (release f p ∷ rest) = replay m rest

  -- The accesses as the pool carries them out, as long as every call returns and the last pin of a
  -- page goes only when the page is dirty or as on disk.
  pub data Runs : BufferPool Page → List (Access Page) → BufferPool Page → Type 0 where
    stop : {s : BufferPool Page} → Runs s [] s
    after_read :
        {s t u : BufferPool Page} {f p i : ℕ} {rest : List (Access Page)}
        → HasRoom s f p
        → pin s f p false ≡ (t, returned i)
        → Runs t rest u
        → Runs s (read f p ∷ rest) u
    after_create :
        {s t u : BufferPool Page} {f p i : ℕ} {page : Page} {rest : List (Access Page)}
        → HasRoom s f p
        → pin s f p true ≡ (t, returned i)
        → Runs (write_buffer t i page) rest u
        → Runs s (create f p page ∷ rest) u
    after_write :
        {s u : BufferPool Page} {f p : ℕ} {page : Page} {rest : List (Access Page)}
        → IsPinned s f p
        → Runs (write_buffer s (frame_of s f p) page) rest u
        → Runs s (write f p page ∷ rest) u
    after_mark :
        {s t u : BufferPool Page} {f p : ℕ} {rest : List (Access Page)}
        → set_pinned_page_dirty s f p ≡ (t, returned tt)
        → Runs t rest u
        → Runs s (mark f p ∷ rest) u
    after_release :
        {s t u : BufferPool Page} {f p : ℕ} {rest : List (Access Page)}
        → IsPinned s f p
        → (s.buffer_cache (frame_of s f p)).pin_count < uint32_max
        → IsReleasable s f p
        → unpin s f p ≡ (t, returned tt)
        → Runs t rest u
        → Runs s (release f p ∷ rest) u

  put-eq :
      {m m' : ℕ → ℕ → Page}
      → ((f p : ℕ) → m f p ≡ m' f p)
      → (f p : ℕ) (page : Page) (g q : ℕ) → put m f p page g q ≡ put m' f p page g q
  put-eq h f p page g q = ap (λ x. if f == g && p == q then page else x) (h g q)

  -- A write to a buffer changes nothing else of its frame, and no other frame.
  written :
      {B : Type 0} (field : Frame Page → B) (s : BufferPool Page) (i : ℕ) (page : Page)
      → ((x : Frame Page) → field (record x { buffer = page }) ≡ field x)
      → (j : ℕ) → field ((write_buffer s i page).buffer_cache j) ≡ field (s.buffer_cache j)
  written field s i page h j = elim (ℕ-cases i j) [
    | inl e ↦
        ap
          (λ b. field (if b then record (s.buffer_cache i) { buffer = page } else s.buffer_cache j))
          (==_of_eq i j e)
        ∙ h (s.buffer_cache i)
        ∙ ap (λ k. field (s.buffer_cache k)) e
    | inr n ↦
        ap
          (λ b. field (if b then record (s.buffer_cache i) { buffer = page } else s.buffer_cache j))
          (==_of_ne _ _ n)
  ]

  write-IsSwizzled :
      (s : BufferPool Page) (i : ℕ) (page : Page)
      → IsSwizzled s
      → IsSwizzled (write_buffer s i page)
  write-IsSwizzled s i page w = record {
    some_frames = w.some_frames;
    few_frames = w.few_frames;
    in_range = w.in_range;
    mapped_file =
        λ f p n. written (λ x. x.file_handle_ptr) s i page (λ x. refl) _ ∙ w.mapped_file f p n;
    mapped_page = λ f p n. written (λ x. x.page_idx) s i page (λ x. refl) _ ∙ w.mapped_page f p n;
    mapped_pin =
        λ f p n e. w.mapped_pin f p n (sym (written (λ x. x.pin_count) s i page (λ x. refl) _) ∙ e);
    held_frame = λ j lt n.
        ap (λ g. frame_of s g ((write_buffer s i page).buffer_cache j).page_idx)
          (written (λ x. x.file_handle_ptr) s i page (λ x. refl) j)
        ∙ ap (frame_of s (s.buffer_cache j).file_handle_ptr)
            (written (λ x. x.page_idx) s i page (λ x. refl) j)
        ∙ w.held_frame j lt (λ e. n (written (λ x. x.pin_count) s i page (λ x. refl) j ∙ e));
  }

  write-IsClean :
      (s : BufferPool Page) (i : ℕ) (page : Page)
      → 1 ≤ (s.buffer_cache i).pin_count
      → IsClean s
      → IsClean (write_buffer s i page)
  write-IsClean s i page h c j lt z d = elim (ℕ-cases i j) [
    | inl e ↦ absurd (
        omega (
          arith,
          h,
          z,
          written (λ x. x.pin_count) s i page (λ x. refl) j,
          ap (λ k. (s.buffer_cache k).pin_count) e,
        ))
    | inr n ↦
        let same : (write_buffer s i page).buffer_cache j ≡ s.buffer_cache j =
          ap (λ b. if b then record (s.buffer_cache i) { buffer = page } else s.buffer_cache j)
            (==_of_ne _ _ n) in
        subst (λ x. x.buffer ≡ (s.files x.file_handle_ptr).pages x.page_idx) (sym same)
          (c j lt (sym (ap (λ x. x.pin_count) same) ∙ z) (sym (ap (λ x. x.is_dirty) same) ∙ d))
  ]

  write-contents :
      (s : BufferPool Page) (f p i : ℕ) (page : Page)
      → IsSwizzled s
      → frame_of s f p ≡ i
      → i ≢ uint32_max
      → (g q : ℕ) → contents (write_buffer s i page) g q ≡ put (contents s) f p page g q
  write-contents s f p i page w at n g q = elim (Bool-cases (f == g && p == q)) [
    | inl e ↦
        let same = same_page_lem f p g q e in
        let at' : frame_of s g q ≡ i =
          sym (ap (λ x. frame_of s x p) same.0 ∙ ap (frame_of s g) same.1) ∙ at in
        contents-in_frame (write_buffer s i page) g q i at' n
        ∙ (ground arith)
        ∙ sym (ap (λ b. if b then page else contents s g q) e)
    | inr e ↦ elim (ℕ-cases (frame_of s g q) uint32_max) [
      | inl z ↦
          ap (contents_at (write_buffer s i page) g q) z
          ∙ sym (ap (contents_at s g q) z)
          ∙ sym (ap (λ b. if b then page else contents s g q) e)
      | inr z ↦
          contents-in_frame (write_buffer s i page) g q (frame_of s g q) refl z
          ∙ ap
              (λ b.
                (if b
                  then record (s.buffer_cache i) { buffer = page }
                  else s.buffer_cache (frame_of s g q)).buffer)
              (==_of_ne _ _ (elsewhere z e))
          ∙ sym (contents-in_frame s g q (frame_of s g q) refl z)
          ∙ sym (ap (λ b. if b then page else contents s g q) e)
    ]
  ]
    where
      elsewhere : frame_of s g q ≢ uint32_max → (f == g && p == q) ≡ false → i ≢ frame_of s g q
      elsewhere z e i_eq = distinct_frames w f p g q (λ y. n (sym at ∙ y)) z e (at ∙ i_eq)

  -- The state of a pool that has carried out some accesses, and the contents of its files.
  pub record Implements (s : BufferPool Page) (m : ℕ → ℕ → Page) : Type 0 where
    pub swizzled : IsSwizzled s
    pub clean : IsClean s
    pub holds : (f p : ℕ) → contents s f p ≡ m f p

  read-Implements :
      (s t : BufferPool Page) (m : ℕ → ℕ → Page) (f p i : ℕ)
      → Implements s m
      → HasRoom s f p
      → pin s f p false ≡ (t, returned i)
      → Implements t m
  read-Implements s t m f p i h room e =
      let P : Pinned s t f p i false =
        subst (λ r. Pins s r f p false) e (pin-Pins s f p false h.swizzled h.clean room) in
      record {
        swizzled = P.swizzled;
        clean = P.clean;
        holds = λ g q. P.kept g q (λ _ _. refl) ∙ h.holds g q;
      }

  create-Implements :
      (s t : BufferPool Page) (m : ℕ → ℕ → Page) (f p i : ℕ) (page : Page)
      → Implements s m
      → HasRoom s f p
      → pin s f p true ≡ (t, returned i)
      → Implements (write_buffer t i page) (put m f p page)
  create-Implements s t m f p i page h room e =
      let P : Pinned s t f p i true =
        subst (λ r. Pins s r f p true) e (pin-Pins s f p true h.swizzled h.clean room) in
      record {
        swizzled = write-IsSwizzled t i page P.swizzled;
        clean = write-IsClean t i page P.pinned P.clean;
        holds = λ g q.
            write-contents t f p i page P.swizzled P.at_frame P.in_frame g q
            ∙ elim (Bool-cases (f == g && p == q)) [
              | inl y ↦
                  ap (λ b. if b then page else contents t g q) y
                  ∙ sym (ap (λ b. if b then page else m g q) y)
              | inr y ↦
                  ap (λ x. if f == g && p == q then page else x)
                    (P.kept g q (λ a b. absurd (other_page f p g q a b y)) ∙ h.holds g q)
            ];
      }

  Kept-Implements :
      (s t : BufferPool Page) (m : ℕ → ℕ → Page) → Implements s m → Kept s t → Implements t m
  Kept-Implements s t m h k = record {
    swizzled = k.swizzled;
    clean = k.clean;
    holds = λ f p. k.kept f p ∙ h.holds f p;
  }

  -- Whatever is read, created, written, marked and released, and whichever pages the pool evicts on
  -- the way, its pages hold what the same accesses leave in plain maps, and its invariants hold.
  pub Runs-Implements :
      (s u : BufferPool Page) (accesses : List (Access Page)) (m : ℕ → ℕ → Page)
      → Implements s m
      → Runs s accesses u
      → Implements u (replay m accesses)
  Runs-Implements s u accesses m h stop = h
  Runs-Implements s u accesses m h (after_read {t = t} {f = f} {p = p} {i = i} room e r) =
      Runs-Implements t u _ m (read-Implements s t m f p i h room e) r
  Runs-Implements s u accesses m h
        (after_create {t = t} {f = f} {p = p} {i = i} {page = page} room e r) =
      Runs-Implements _ u _ (put m f p page) (create-Implements s t m f p i page h room e) r
  Runs-Implements s u accesses m h (after_write {f = f} {p = p} {page = page} pinned r) =
      Runs-Implements _ u _ (put m f p page)
        (record {
          swizzled = write-IsSwizzled s (frame_of s f p) page h.swizzled;
          clean = write-IsClean s (frame_of s f p) page pinned.1 h.clean;
          holds = λ g q.
              write-contents s f p (frame_of s f p) page h.swizzled refl pinned.0 g q
              ∙ put-eq h.holds f p page g q;
        })
        r
  Runs-Implements s u accesses m h (after_mark {t = t} {f = f} {p = p} e r) =
      let marked =
        subst (λ x. MarksOrThrows s x f p) e
          (set_pinned_page_dirty-MarksOrThrows s f p h.swizzled h.clean) in
      Runs-Implements t u _ m (Kept-Implements s t m h marked.1) r
  Runs-Implements s u accesses m h (after_release {t = t} {f = f} {p = p} pinned lt free e r) =
      let released =
        subst (λ x. Unpins s x f p) e (unpin-Unpins s f p h.swizzled h.clean pinned lt free) in
      Runs-Implements t u _ m (Kept-Implements s t m h released.0) r
