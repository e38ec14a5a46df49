-- ===== src/BufferPool/Flush.antt =====
-- The flush of a whole file: flushAllDirtyPagesInFrames of
-- src/storage/buffer_manager/buffer_pool.cpp.
use graphflowdb.Base.{
  ℕ, zero, suc, ◌+◌, ◌<◌, ◌≤◌, ◌≡◌, refl, sym, ap, ◌∙◌, true, false, ◌&&◌, arith, ◌==◌,
  if◌then◌else◌, inl, inr, ℕ-cases,
}
use graphflowdb.FileHandle.{uint32_max, release_page_lock}
use graphflowdb.BufferPool.{BufferPool, Outcome, returned, thrown, waiting, set_file}
use graphflowdb.BufferPool.Pin.{run_if_acquired}
use graphflowdb.BufferPool.Remove.{
  remove_locked, remove_page_from_frame, remove_pages, flush_all_dirty_pages_in_frames,
}
use graphflowdb.BufferPool.Effects.{Alike, Alike-Retouched, Alike-pin, frame_of, is_locked}
use graphflowdb.BufferPool.Eviction.{
  lock_page, lock_page-frame_of, lock_page-is_locked, lock_page-page_capacity, unlocks,
}
use graphflowdb.BufferPool.Invariant.{IsSwizzled, Retouched-IsOnDisk, Retouched-IsSwizzled}
use graphflowdb.BufferPool.Contents.{contents, contents-on_disk, Retouched-contents}
use graphflowdb.BufferPool.Pinning.{Alike-lock_page, Alike-release}
use graphflowdb.BufferPool.Removal.{IsSettled, Flushed, remove_locked-Flushed}
use graphflowdb.BufferPool.Returns.{acquire_free}

module _ {Page : Type 0} where
  Alike-IsSettled : {s t : BufferPool Page} → Alike s t → IsSettled s → IsSettled t
  Alike-IsSettled a c i lt n d = Retouched-IsOnDisk (Alike-Retouched a) i (
      c i (omega (arith, lt, a.sizes)) (λ e. n (Alike-pin a i ∙ e))
        (sym (ap (λ x. x.is_dirty) (a.frames i)) ∙ d))

  abbrev release : BufferPool Page → ℕ → ℕ → BufferPool Page
  release u f p = set_file u f (release_page_lock (u.files f) p)

  release-is_locked :
      (u : BufferPool Page) (f p g q : ℕ)
      → is_locked (release u f p) g q ≡ (if f == g && p == q then false else is_locked u g q)
  release-is_locked u f p g q = ground arith

  release-page_capacity :
      (u : BufferPool Page) (f p g : ℕ)
      → ((release u f p).files g).page_capacity ≡ (u.files g).page_capacity
  release-page_capacity u f p g = ground arith

  Flushed-under_lock :
      (s u : BufferPool Page) (f p : ℕ)
      → is_locked s f p ≡ false
      → Flushed (lock_page s f p) u f p
      → Flushed s (release u f p) f p
  Flushed-under_lock s u f p free F =
      let b = Alike-release u f p in
      record {
        swizzled = Retouched-IsSwizzled (Alike-Retouched b) F.swizzled;
        settled = Alike-IsSettled b F.settled;
        away = b.frames_of f p ∙ F.away;
        stays_away = λ g q z. b.frames_of g q ∙ F.stays_away g q (lock_page-frame_of s f p g q ∙ z);
        kept = λ g q.
            Retouched-contents (Alike-Retouched b) g q
            ∙ F.kept g q
            ∙ Retouched-contents (Alike-Retouched (Alike-lock_page s f p)) g q;
        locks = λ g q.
            release-is_locked u f p g q
            ∙ ap (λ x. if f == g && p == q then false else x)
                (F.locks g q ∙ lock_page-is_locked s f p g q)
            ∙ unlocks s f p g q free;
        capacities =
            λ g. release-page_capacity u f p g ∙ F.capacities g ∙ lock_page-page_capacity s f p g;
      }

  -- One page is flushed and taken out of its frame.
  remove_page_from_frame-Flushed :
      (s : BufferPool Page) (f p : ℕ)
      → IsSwizzled s
      → IsSettled s
      → is_locked s f p ≡ false
      → p < (s.files f).page_capacity
      → (s' : BufferPool Page) × (remove_page_from_frame s f p true ≡ (s', returned tt))
        × Flushed s s' f p
  unfolding remove_page_from_frame
  remove_page_from_frame-Flushed s f p w c free inside =
      let t = lock_page s f p in
      let b = Alike-lock_page s f p in
      let u = remove_locked true t f p in
      (
        release u f p,
        ap (run_if_acquired (λ t. (remove_locked true t f p, returned tt)) s f p)
            (acquire_free s f p free inside),
        Flushed-under_lock s u f p free (
            remove_locked-Flushed t f p (Retouched-IsSwizzled (Alike-Retouched b) w)
              (Alike-IsSettled b c)),
      )

  -- The pages from `p` on, a number of them, are flushed one after the other.
  remove_pages-flushed :
      (rounds : ℕ) (s : BufferPool Page) (f p : ℕ)
      → IsSwizzled s
      → IsSettled s
      → ((q : ℕ) → is_locked s f q ≡ false)
      → p + rounds ≤ (s.files f).page_capacity
      → (s' : BufferPool Page) × (remove_pages rounds s f p true ≡ (s', returned tt))
        × IsSwizzled s'
        × IsSettled s'
        × ((g q : ℕ) → contents s' g q ≡ contents s g q)
        × ((g q : ℕ) → frame_of s g q ≡ uint32_max → frame_of s' g q ≡ uint32_max)
        × ((q : ℕ) → p ≤ q → q < p + rounds → frame_of s' f q ≡ uint32_max)
  unfolding remove_pages
  remove_pages-flushed zero s f p w c free inside =
      (s, refl, w, c, λ g q. refl, λ g q z. z, λ q a b. absurd (omega (arith, a, b)))
  remove_pages-flushed (suc rounds) s f p w c free inside =
      let one = remove_page_from_frame-Flushed s f p w c (free p) (omega (arith, inside)) in
      let F = one.2 in
      let rest =
        remove_pages-flushed rounds one.0 f (p + 1) F.swizzled F.settled (λ q. F.locks f q ∙ free q)
          (omega (arith, inside, F.capacities f)) in
      (
        rest.0,
        ap (next rounds f p) one.1 ∙ rest.1,
        rest.2,
        rest.3,
        λ g q. rest.4 g q ∙ F.kept g q,
        λ g q z. rest.5 g q (F.stays_away g q z),
        λ q a b. elim (ℕ-cases p q) [
          | inl e ↦ rest.5 f q (ap (frame_of one.0 f) (sym e) ∙ F.away)
          | inr m ↦ rest.6 q (ground arith) (omega (arith, b))
        ],
      )
    where
      next : ℕ → ℕ → ℕ → BufferPool Page × Outcome (Unit {0}) → BufferPool Page × Outcome (Unit {0})
      next rounds f p r = elim r.1 [
        | returned u ↦ remove_pages rounds r.0 f (p + 1) true
        | thrown ↦ r
        | waiting ↦ r
      ]

  -- The flush of a file whose page locks are free returns. Every page of the file is then out of
  -- its frame and on disk with the contents that it had, no page's contents change, and the maps and
  -- the frames agree.
  pub flush_all_dirty_pages_in_frames_lem :
      (s : BufferPool Page) (f q : ℕ)
      → IsSwizzled s
      → IsSettled s
      → ((q : ℕ) → is_locked s f q ≡ false)
      → (s.files f).num_pages ≤ (s.files f).page_capacity
      → q < (s.files f).num_pages
      → (s' : BufferPool Page) × (flush_all_dirty_pages_in_frames s f ≡ (s', returned tt))
        × (frame_of s' f q ≡ uint32_max)
        × ((s'.files f).pages q ≡ contents s f q)
        × ((g p : ℕ) → contents s' g p ≡ contents s g p)
        × IsSwizzled s'
  unfolding flush_all_dirty_pages_in_frames
  flush_all_dirty_pages_in_frames_lem s f q w c free inside lt =
      let all = remove_pages-flushed (s.files f).num_pages s f 0 w c free (omega (arith, inside)) in
      let away = all.6 q (omega arith) (omega (arith, lt)) in
      (all.0, all.1, away, sym (contents-on_disk all.0 f q away) ∙ all.4 f q, all.4, all.2)
