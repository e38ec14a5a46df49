-- ===== src/BufferPool/Unpinning.antt =====
-- The end of a pin, and a caller's write to a page that it has pinned: unpin of
-- src/storage/buffer_manager/buffer_pool.cpp.
use graphflowdb.Base.{
  ℕ, ◌+◌, ◌%◌, ◌^◌, ◌-◌, ◌<◌, ◌≤◌, ◌≡◌, ◌≢◌, refl, sym, ap, ◌∙◌, ◌⊎◌, inl, inr, true, false, arith,
  ◌==◌, if◌then◌else◌, ℕ-cases, update, ==_of_ne,
}
use graphflowdb.FileHandle.{uint32_max, FileHandle, Acquired}
use graphflowdb.BufferPool.{BufferPool, Outcome, returned, thrown, waiting, set_frame}
use graphflowdb.BufferPool.Pin.{run_if_acquired, unpin, unpin_without_acquiring_page_lock}
use graphflowdb.BufferPool.Effects.{Alike, frame_of, is_locked, still}
use graphflowdb.BufferPool.Eviction.{lock_page, lock_page-frame_of}
use graphflowdb.BufferPool.Search.{answer_out, answer_held, answer_acquired, acquire_cases}
use graphflowdb.BufferPool.Invariant.{
  IsSwizzled, IsClean, Retouched-IsSwizzled, IsOnDisk, Retouched-IsOnDisk,
}
use graphflowdb.BufferPool.Contents.{Retouched-contents}
use graphflowdb.BufferPool.Pinning.{set_frame-Retouched, Alike-lock_page, Alike-release}
use graphflowdb.BufferPool.Release.{IsPinned, Kept, Alike-Kept, Kept-trans}
use mathlib.Core.Path.{subst}
use mathlib.Core.Bool.{true≢false}

two_left : (i j n : ℕ) → i ≡ j → (if i == j then n - 1 else n) ≡ 0 → 2 ≤ n → ⊥
two_left i j n e z h = ground arith

module _ {Page : Type 0} where
  -- The last pin of a page may go only if its frame is dirty or holds what is on disk.
  abbrev pub IsReleasable : BufferPool Page → ℕ → ℕ → Type 0
  IsReleasable s f p =
      let frame = s.buffer_cache (frame_of s f p) in
      (2 ≤ frame.pin_count) ⊎ (frame.is_dirty ≡ true) ⊎ (frame.buffer ≡ (s.files f).pages p)

  unpinned-pin_count :
      (s : BufferPool Page) (i j : ℕ)
      → 1 ≤ (s.buffer_cache i).pin_count
      → (s.buffer_cache i).pin_count < uint32_max
      → (update s.buffer_cache i
          (record (s.buffer_cache i) {
            pin_count = ((s.buffer_cache i).pin_count + (2 ^ 32 - 1)) % 2 ^ 32;
          })
          j).pin_count
        ≡ (if i == j then (s.buffer_cache j).pin_count - 1 else (s.buffer_cache j).pin_count)
  unpinned-pin_count s i j a b = ground arith

  unpinned-is_dirty :
      (s : BufferPool Page) (i j n : ℕ)
      → (update s.buffer_cache i (record (s.buffer_cache i) { pin_count = n }) j).is_dirty
        ≡ (s.buffer_cache j).is_dirty
  unpinned-is_dirty s i j n = ground arith

  unpin_Kept :
      (s : BufferPool Page) (f p : ℕ)
      → IsSwizzled s
      → IsClean s
      → IsPinned s f p
      → (s.buffer_cache (frame_of s f p)).pin_count < uint32_max
      → IsReleasable s f p
      → Kept s (unpin_without_acquiring_page_lock s f p)
  unfolding unpin_without_acquiring_page_lock
  unpin_Kept s f p w c h lt r =
      let i = frame_of s f p in
      let n = ((s.buffer_cache i).pin_count + (2 ^ 32 - 1)) % 2 ^ 32 in
      let t =
        set_frame-Retouched s s.bm_metrics i (record (s.buffer_cache i) { pin_count = n }) refl refl
          refl (omega (arith, lt)) (lowered (s.buffer_cache i).pin_count h.1 lt) in
      record {
        swizzled = Retouched-IsSwizzled t w;
        clean = λ j lt' z d. Retouched-IsOnDisk t j (
            released j lt' (sym (unpinned-pin_count s i j h.1 lt) ∙ z)
              (sym (unpinned-is_dirty s i j n) ∙ d));
        places = λ g q. refl;
        kept = Retouched-contents t;
      }
    where
      lowered : (n : ℕ) → 1 ≤ n → n < uint32_max → (n + (2 ^ 32 - 1)) % 2 ^ 32 ≢ uint32_max
      lowered n a b e = ground arith

      released :
          (j : ℕ)
          → j < s.num_frames
          → (if frame_of s f p == j
              then (s.buffer_cache j).pin_count - 1
              else (s.buffer_cache j).pin_count)
            ≡ 0
          → (s.buffer_cache j).is_dirty ≡ false
          → IsOnDisk s j
      released j lt' z d = elim (ℕ-cases (frame_of s f p) j) [
        | inl e ↦ subst (IsOnDisk s) e (elim r [
          | inl two ↦
              absurd (two_left _ j _ e z (subst (λ k. 2 ≤ (s.buffer_cache k).pin_count) e two))
          | inr (inl dirty) ↦
              absurd (true≢false (sym dirty ∙ ap (λ k. (s.buffer_cache k).is_dirty) e ∙ d))
          | inr (inr disk) ↦
              disk
              ∙ ap (λ g. (s.files g).pages p) (sym (w.mapped_file f p h.0))
              ∙ ap (s.files (s.buffer_cache (frame_of s f p)).file_handle_ptr).pages
                  (sym (w.mapped_page f p h.0))
        ])
        | inr n ↦
            c j lt'
              (sym (
                  ap
                    (λ b.
                      if b then (s.buffer_cache j).pin_count - 1 else (s.buffer_cache j).pin_count)
                    (==_of_ne _ _ n))
                ∙ z)
              d
      ]

  -- The unpin under the page's lock.
  abbrev pub Unpins : BufferPool Page → BufferPool Page × Outcome (Unit {0}) → ℕ → ℕ → Type 0
  Unpins s (s', returned u) f p =
      Kept s s'
      × ((s.buffer_cache (frame_of s f p)).pin_count
          ≡ (s'.buffer_cache (frame_of s f p)).pin_count + 1)
  Unpins s (s', thrown) f p = ((s.files f).page_capacity ≤ p) × (s' ≡ s)
  Unpins s (s', waiting) f p = (is_locked s f p ≡ true) × (s' ≡ s)

  Alike-IsReleasable :
      {s t : BufferPool Page} → Alike s t → (f p : ℕ) → IsReleasable s f p → IsReleasable t f p
  Alike-IsReleasable {s = s} {t = t} a f p r =
      let e = a.frames_of f p in
      let o : still (t.buffer_cache (frame_of t f p)) ≡ still (s.buffer_cache (frame_of s f p)) =
        ap (λ i. still (t.buffer_cache i)) e ∙ a.frames (frame_of s f p) in
      elim r [
        | inl two ↦ inl (omega (arith, two, ap (λ x. x.pin_count) o))
        | inr (inl dirty) ↦ inr (inl (ap (λ x. x.is_dirty) o ∙ dirty))
        | inr (inr disk) ↦ inr (inr (ap (λ x. x.buffer) o ∙ disk ∙ sym (a.disk f p)))
      ]

  lowered_by_one :
      (s : BufferPool Page) (f p : ℕ)
      → 1 ≤ (s.buffer_cache (frame_of s f p)).pin_count
      → (s.buffer_cache (frame_of s f p)).pin_count < uint32_max
      → (s.buffer_cache (frame_of s f p)).pin_count
        ≡ ((unpin_without_acquiring_page_lock s f p).buffer_cache (frame_of s f p)).pin_count + 1
  unfolding unpin_without_acquiring_page_lock
  lowered_by_one s f p a b = omega (
    arith,
    unpinned-pin_count s (frame_of s f p) (frame_of s f p) a b,
    same (frame_of s f p) (s.buffer_cache (frame_of s f p)).pin_count,
  )
    where
      same : (i n : ℕ) → (if i == i then n - 1 else n) ≡ n - 1
      same i n = ground arith

  -- The unpin of a pinned page whose last pin goes only when the frame is dirty or as on disk takes
  -- one pin off, if the page's lock is free, and no page's contents or place change.
  pub unpin-Unpins :
      (s : BufferPool Page) (f p : ℕ)
      → IsSwizzled s
      → IsClean s
      → IsPinned s f p
      → (s.buffer_cache (frame_of s f p)).pin_count < uint32_max
      → IsReleasable s f p
      → Unpins s (unpin s f p) f p
  unfolding unpin
  unpin-Unpins s f p w c h lt r =
      let t = lock_page s f p in
      let b = Alike-lock_page s f p in
      let same = lock_page-frame_of s f p f p in
      let kept = Alike-Kept w c b in
      let pin = ap (λ j. (s.buffer_cache j).pin_count) same in
      let k =
        unpin_Kept t f p kept.swizzled kept.clean
          ((λ z. h.0 (sym same ∙ z)), omega (arith, h.1, pin)) (omega (arith, lt, pin))
          (Alike-IsReleasable b f p r) in
      let answer : Acquired (FileHandle Page) → BufferPool Page × Outcome (Unit {0}) =
        run_if_acquired (λ t. (unpin_without_acquiring_page_lock t f p, returned tt)) s f p in
      elim (acquire_cases s f p) [
        | answer_out a o ↦ subst (λ x. Unpins s (answer x) f p) (sym a) (o, refl)
        | answer_held a o ↦ subst (λ x. Unpins s (answer x) f p) (sym a) (o, refl)
        | answer_acquired a free ↦
            subst (λ x. Unpins s (answer x) f p) (sym a)
              (
                Kept-trans kept
                    (Kept-trans k (Alike-Kept k.swizzled k.clean (Alike-release _ f p))),
                subst
                    (λ j.
                      (s.buffer_cache j).pin_count
                      ≡ ((unpin_without_acquiring_page_lock t f p).buffer_cache j).pin_count + 1)
                    same (lowered_by_one t f p (omega (arith, h.1, pin)) (omega (arith, lt, pin))),
              )
      ]

  -- A caller that has pinned a page writes to its buffer.
  abbrev pub write_buffer : BufferPool Page → ℕ → Page → BufferPool Page
  write_buffer s i page = set_frame s i (record (s.buffer_cache i) { buffer = page })
