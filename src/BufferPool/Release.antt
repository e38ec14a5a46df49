-- ===== src/BufferPool/Release.antt =====
-- Dirty marks and unpins: setPinnedPageDirty and unpin of
-- src/storage/buffer_manager/buffer_pool.cpp, and a caller's write to a page that it has pinned.
use graphflowdb.Base.{
  ℕ, ◌<◌, ◌≤◌, ◌≡◌, ◌≢◌, refl, sym, ◌∙◌, inl, inr, Bool, true, false, not, ◌||◌, arith,
  if◌then◌else◌, Bool-cases, ltb, update,
}
use graphflowdb.FileHandle.{
  uint32_max, FileHandle, Acquired, acquire, acquired, test_and_set, is_a_frame, release_page_lock,
}
use graphflowdb.BufferPool.{BufferPool, Outcome, returned, thrown, waiting, set_file, set_frame}
use graphflowdb.BufferPool.Pin.{
  run_if_acquired, release_after, set_dirty_locked, set_pinned_page_dirty,
}
use graphflowdb.BufferPool.Effects.{Alike, Alike-Retouched, frame_of, is_locked}
use graphflowdb.BufferPool.Eviction.{lock_page, lock_page-frame_of}
use graphflowdb.BufferPool.Search.{answer_out, answer_held, answer_acquired, acquire_cases}
use graphflowdb.BufferPool.Invariant.{
  IsSwizzled, IsClean, Retouched-IsSwizzled, Retouched-IsClean, Alike-IsClean,
}
use graphflowdb.BufferPool.Contents.{contents, Retouched-contents}
use graphflowdb.BufferPool.Pinning.{set_frame-Retouched, Alike-lock_page, Alike-release}
use mathlib.Core.Path.{subst}

-- A state in which every page has its contents and its place.
pub record Kept {Page : Type 0} (s s' : BufferPool Page) : Type 0 where
  pub swizzled : IsSwizzled s'
  pub clean : IsClean s'
  pub places : (f p : ℕ) → frame_of s' f p ≡ frame_of s f p
  pub kept : (f p : ℕ) → contents s' f p ≡ contents s f p

module _ {Page : Type 0} where
  pub Alike-Kept : {s s' : BufferPool Page} → IsSwizzled s → IsClean s → Alike s s' → Kept s s'
  Alike-Kept w c a = record {
    swizzled = Retouched-IsSwizzled (Alike-Retouched a) w;
    clean = Alike-IsClean a c;
    places = a.frames_of;
    kept = Retouched-contents (Alike-Retouched a);
  }

  pub Kept-trans : {s t u : BufferPool Page} → Kept s t → Kept t u → Kept s u
  Kept-trans a b = record {
    swizzled = b.swizzled;
    clean = b.clean;
    places = λ f p. b.places f p ∙ a.places f p;
    kept = λ f p. b.kept f p ∙ a.kept f p;
  }

  abbrev pub IsPinned : BufferPool Page → ℕ → ℕ → Type 0
  IsPinned s f p = (frame_of s f p ≢ uint32_max) × (1 ≤ (s.buffer_cache (frame_of s f p)).pin_count)

  -- The page is marked dirty only if it is pinned; `Refused` is what a refusal leaves.
  abbrev MarksOr :
      (BufferPool Page → Type 0)
      → BufferPool Page
      → BufferPool Page × Outcome (Unit {0})
      → ℕ
      → ℕ
      → Type 0
  MarksOr Refused s (s', returned u) f p =
      IsPinned s f p × Kept s s' × ((s'.buffer_cache (frame_of s f p)).is_dirty ≡ true)
  MarksOr Refused s (s', thrown) f p =
      ¬ (IsPinned s f p × (p < (s.files f).page_capacity)) × Refused s'
  MarksOr Refused s (s', waiting) f p = (is_locked s f p ≡ true) × (s' ≡ s)

  -- A refusal leaves the state as it was.
  abbrev pub Marks : BufferPool Page → BufferPool Page × Outcome (Unit {0}) → ℕ → ℕ → Type 0
  Marks s out f p = MarksOr (λ s'. s' ≡ s) s out f p

  abbrev pub MarksOrThrows : BufferPool Page → BufferPool Page × Outcome (Unit {0}) → ℕ → ℕ → Type 0
  MarksOrThrows s out f p = MarksOr (λ s'. Unit {0}) s out f p

  marked :
      (s : BufferPool Page) (i j : ℕ)
      → (update s.buffer_cache i (record (s.buffer_cache i) { is_dirty = true }) j).pin_count ≡ 0
      → (update s.buffer_cache i (record (s.buffer_cache i) { is_dirty = true }) j).is_dirty ≡ false
      → ((s.buffer_cache j).pin_count ≡ 0) × ((s.buffer_cache j).is_dirty ≡ false)
  marked s i j z d = (ground arith, ground arith)

  marked_dirty :
      (s : BufferPool Page) (i j : ℕ)
      → i ≡ j
      → (update s.buffer_cache i (record (s.buffer_cache i) { is_dirty = true }) j).is_dirty ≡ true
  marked_dirty s i j e = ground arith

  -- The mark on the frame of a pinned page.
  mark_Kept :
      (s : BufferPool Page) (f p : ℕ)
      → IsSwizzled s
      → IsClean s
      → frame_of s f p ≢ uint32_max
      → Kept s (
          set_frame s
            (frame_of s f p)
            (record (s.buffer_cache (frame_of s f p)) { is_dirty = true }))
  mark_Kept s f p w c n =
      let i = frame_of s f p in
      let pin = w.mapped_pin f p n in
      let r =
        set_frame-Retouched s s.bm_metrics i (record (s.buffer_cache i) { is_dirty = true }) refl
          refl refl pin pin in
      record {
        swizzled = Retouched-IsSwizzled r w;
        clean = Retouched-IsClean r (λ j lt z d. marked s i j z d) c;
        places = λ g q. refl;
        kept = Retouched-contents r;
      }

  abbrev cannot_mark : BufferPool Page → ℕ → Bool
  cannot_mark t i = not (is_a_frame i) || ltb (t.buffer_cache i).pin_count 1

  guard_pinned :
      (t : BufferPool Page) (i : ℕ)
      → cannot_mark t i ≡ false
      → (i ≢ uint32_max) × (1 ≤ (t.buffer_cache i).pin_count)
  guard_pinned t i e = (ground arith, ground arith)

  guard_unpinned :
      (t : BufferPool Page) (i : ℕ)
      → cannot_mark t i ≡ true
      → i ≢ uint32_max
      → 1 ≤ (t.buffer_cache i).pin_count
      → ⊥
  guard_unpinned t i e a b = ground arith

  abbrev given_back : BufferPool Page → ℕ → ℕ → BufferPool Page
  given_back s f p = set_file (lock_page s f p) f (release_page_lock ((lock_page s f p).files f) p)

  mark_under_lock :
      (Refused : BufferPool Page → Type 0) (s : BufferPool Page) (f p : ℕ)
      → IsSwizzled s
      → IsClean s
      → Refused (given_back s f p)
      → MarksOr Refused s (release_after (set_dirty_locked (lock_page s f p) f p) f p) f p
  mark_under_lock Refused s f p w c refused =
      let t = lock_page s f p in
      let i = frame_of t f p in
      let b = Alike-lock_page s f p in
      let same = lock_page-frame_of s f p f p in
      let kept = Alike-Kept w c b in
      elim (Bool-cases (cannot_mark t i)) [
        | inl e ↦
            rw (e, if◌then◌else◌)
              (
                (λ h.
                    guard_unpinned t i e (λ z. h.0.0 (sym same ∙ z))
                      (subst (λ j. 1 ≤ (s.buffer_cache j).pin_count) (sym same) h.0.1)),
                refused,
              )
        | inr e ↦
            let n = guard_pinned t i e in
            let m = mark_Kept t f p kept.swizzled kept.clean n.0 in
            rw (e, if◌then◌else◌)
              (
                ((λ z. n.0 (same ∙ z)), subst (λ j. 1 ≤ (s.buffer_cache j).pin_count) same n.1),
                Kept-trans kept
                    (Kept-trans m (Alike-Kept m.swizzled m.clean (Alike-release _ f p))),
                marked_dirty s i (frame_of s f p) same,
              )
      ]

  set_pinned_page_dirty-MarksOr :
      (Refused : BufferPool Page → Type 0) (s : BufferPool Page) (f p : ℕ)
      → IsSwizzled s
      → IsClean s
      → Refused s
      → (acquire (s.files f) p ≡ acquired (test_and_set (s.files f) p)
          → is_locked s f p ≡ false
          → Refused (given_back s f p))
      → MarksOr Refused s (set_pinned_page_dirty s f p) f p
  unfolding set_pinned_page_dirty
  set_pinned_page_dirty-MarksOr Refused s f p w c as_it_was back =
      let answer : Acquired (FileHandle Page) → BufferPool Page × Outcome (Unit {0}) =
        run_if_acquired (λ t. set_dirty_locked t f p) s f p in
      let leads = λ (x : Acquired (FileHandle Page)). MarksOr Refused s (answer x) f p in
      elim (acquire_cases s f p) [
        | answer_out a o ↦ subst leads (sym a) (λ h. omega (arith, o, h.1), as_it_was)
        | answer_held a o ↦ subst leads (sym a) (o, refl)
        | answer_acquired a free ↦
            subst leads (sym a) (mark_under_lock Refused s f p w c (back a free))
      ]

  pub set_pinned_page_dirty-MarksOrThrows :
      (s : BufferPool Page) (f p : ℕ)
      → IsSwizzled s
      → IsClean s
      → MarksOrThrows s (set_pinned_page_dirty s f p) f p
  set_pinned_page_dirty-MarksOrThrows s f p w c =
      set_pinned_page_dirty-MarksOr (λ s'. Unit {0}) s f p w c tt (λ a free. tt)
