-- ===== src/BufferPool/Pinning.antt =====
-- Pins of pages: pin and pinWithoutAcquiringPageLock of
-- src/storage/buffer_manager/buffer_pool.cpp, on all their branches.
use graphflowdb.Base.{
  ℕ, ◌+◌, ◌%◌, ◌^◌, ◌<◌, ◌≤◌, ◌≡◌, ◌≢◌, refl, sym, ap, ◌∙◌, inl, inr, Bool, true, false, arith,
  ◌==◌, if◌then◌else◌, ℕ-cases, Option, none, some,
}
use graphflowdb.FileHandle.{uint32_max, FileHandle, is_a_frame, release_page_lock, Acquired}
use graphflowdb.BufferPool.{
  BufferManagerMetrics, Frame, BufferPool, set_file, set_frame, Outcome, returned, thrown, waiting,
}
use graphflowdb.BufferPool.Pin.{
  pin_in_frame, count_pin, count_miss, pin_claimed, pin_without_acquiring_page_lock, release_after,
  run_if_acquired, pin,
}
use graphflowdb.BufferPool.Effects.{
  Alike, Alike-refl, Alike-trans, Alike-pin, Retouched, Alike-Retouched, Placed, frame_of,
}
use graphflowdb.BufferPool.Eviction.{lock_page}
use graphflowdb.BufferPool.Search.{
  Claims, claim_a_frame-Claims, answer_out, answer_held, answer_acquired, acquire_cases,
}
use graphflowdb.BufferPool.Invariant.{
  IsSwizzled, IsClean, enter, enter-frame_of, resident-frame_of, pin_eq, there, evicted, absent,
  stays, place, enter-IsSwizzled, Retouched-IsSwizzled, Retouched-IsClean, Alike-IsClean,
}
use graphflowdb.BufferPool.Contents.{contents, Retouched-contents, enter-contents, enter-IsClean}
use mathlib.Core.Path.{subst}

-- The state after a pin: the page is in the frame that the call returned, with what the page held
-- before, no page's contents have changed, and the frames that were pinned hold the same pages.
pub record Pinned {Page : Type 0} (s s' : BufferPool Page) (file page_idx i : ℕ) (new : Bool)
    : Type 0 where
  pub swizzled : IsSwizzled s'
  pub clean : IsClean s'
  pub at_frame : frame_of s' file page_idx ≡ i
  pub in_frame : i ≢ uint32_max
  pub pinned : 1 ≤ (s'.buffer_cache i).pin_count
  pub kept : (f p : ℕ) → (file ≡ f → page_idx ≡ p → new ≡ false) → contents s' f p ≡ contents s f p
  pub stays :
      (f p : ℕ)
      → frame_of s f p ≢ uint32_max
      → 1 ≤ (s.buffer_cache (frame_of s f p)).pin_count
      → (frame_of s' f p ≡ frame_of s f p)
        × ((s.buffer_cache (frame_of s f p)).pin_count
            ≤ (s'.buffer_cache (frame_of s f p)).pin_count)

-- A state in which no page has moved.
pub record Unmoved {Page : Type 0} (s s' : BufferPool Page) : Type 0 where
  pub swizzled : IsSwizzled s'
  pub clean : IsClean s'
  pub alike : Alike s s'

raised : (i j n : ℕ) → (if i == j then n + 1 else n) ≡ 0 → n ≡ 0
raised i j n h = ground arith

not_lowered : (i j n : ℕ) → n ≤ (if i == j then n + 1 else n)
not_lowered i j n = ground arith

module _ {Page : Type 0} where
  abbrev pub Pins : BufferPool Page → BufferPool Page × Outcome ℕ → ℕ → ℕ → Bool → Type 0
  Pins s (s', returned i) file page_idx new = Pinned s s' file page_idx i new
  Pins s (s', _) file page_idx new = Unmoved s s'

  -- The page's count of pins can still be raised.
  abbrev pub HasRoom : BufferPool Page → ℕ → ℕ → Type 0
  HasRoom s file page_idx =
      frame_of s file page_idx ≢ uint32_max
      → (s.buffer_cache (frame_of s file page_idx)).pin_count + 1 < uint32_max

  -- A frame whose page and buffer stay; the metrics `m` may change.
  pub set_frame-Retouched :
      (s : BufferPool Page) (m : BufferManagerMetrics) (i : ℕ) (x : Frame Page)
      → x.file_handle_ptr ≡ (s.buffer_cache i).file_handle_ptr
      → x.page_idx ≡ (s.buffer_cache i).page_idx
      → x.buffer ≡ (s.buffer_cache i).buffer
      → (s.buffer_cache i).pin_count ≢ uint32_max
      → x.pin_count ≢ uint32_max
      → Retouched s (record (set_frame s i x) { bm_metrics = m })
  set_frame-Retouched s m i x a b c d e = record {
    sizes = refl;
    frame_files = λ j. ground arith;
    frame_pages = λ j. ground arith;
    buffers = λ j. ground arith;
    frames_of = λ f p. refl;
    disk = λ f p. refl;
    full = λ j lt n. ground arith;
    empty = λ j lt n. ground arith;
  }

  pin_in_frame-pin_count :
      (s : BufferPool Page) (i j : ℕ)
      → (s.buffer_cache i).pin_count + 1 < uint32_max
      → ((pin_in_frame s i).buffer_cache j).pin_count
        ≡ (if i == j then (s.buffer_cache j).pin_count + 1 else (s.buffer_cache j).pin_count)
  pin_in_frame-pin_count s i j h = ground arith

  pin_in_frame-is_dirty :
      (s : BufferPool Page) (i j : ℕ)
      → ((pin_in_frame s i).buffer_cache j).is_dirty ≡ (s.buffer_cache j).is_dirty
  pin_in_frame-is_dirty s i j = ground arith

  -- What the pin of a page that is in a frame does.
  hit-Pinned :
      (s : BufferPool Page) (file page_idx : ℕ) (new : Bool)
      → IsSwizzled s
      → IsClean s
      → HasRoom s file page_idx
      → frame_of s file page_idx ≢ uint32_max
      → Pinned s
          (count_pin (pin_in_frame s (frame_of s file page_idx)))
          file
          page_idx
          (frame_of s file page_idx)
          new
  hit-Pinned s file page_idx new w c room ne =
      let i = frame_of s file page_idx in
      let n = (s.buffer_cache i).pin_count in
      let r : Retouched s (count_pin (pin_in_frame s i)) =
        set_frame-Retouched s _ i
          (record (s.buffer_cache i) { pin_count = (n + 1) % 2 ^ 32; recently_accessed = true })
          refl refl refl (omega (arith, room ne)) (omega (arith, room ne)) in
      record {
        swizzled = Retouched-IsSwizzled r w;
        clean =
            Retouched-IsClean r
              (λ j lt z d. (
                raised i j _ (sym (pin_in_frame-pin_count s i j (room ne)) ∙ z),
                sym (pin_in_frame-is_dirty s i j) ∙ d,
              ))
              c;
        at_frame = refl;
        in_frame = ne;
        pinned = ground (arith, room ne);
        kept = λ f p _. Retouched-contents r f p;
        stays = λ f p n h. (
          refl,
          omega (
            arith,
            pin_in_frame-pin_count s i (frame_of s f p) (room ne),
            not_lowered i (frame_of s f p) (s.buffer_cache (frame_of s f p)).pin_count,
          ),
        );
      }

  Placed-Pinned :
      {s s' : BufferPool Page} {i file page_idx : ℕ} {new : Bool}
      → IsSwizzled s
      → IsClean s
      → frame_of s file page_idx ≡ uint32_max
      → Placed s s' i file page_idx new
      → Pinned s (enter s' file page_idx i) file page_idx i new
  Placed-Pinned {s = s} {s' = s'} {i = i} {file = file} {page_idx = page_idx} w c out t = record {
    swizzled = enter-IsSwizzled w out t;
    clean = enter-IsClean w c out t;
    at_frame = enter-frame_of s' file page_idx i file page_idx ∙ (ground arith);
    in_frame = λ e. omega (arith, t.in_range, w.few_frames, e);
    pinned = omega (arith, t.placed_pin);
    kept = enter-contents w c out t;
    stays = λ f p n h. elim (place w out t f p) [
      | there a b e ↦
          absurd (n (sym (ap (λ g. frame_of s g page_idx) a ∙ ap (frame_of s f) b) ∙ out))
      | evicted e r ↦ absurd (
          omega (
            arith,
            h,
            pin_eq (s.buffer_cache i) f p r,
            ap (λ j. (s.buffer_cache j).pin_count) (resident-frame_of w t.in_range f p r),
          ))
      | absent e z _ ↦ absurd (n z)
      | stays e m _ _ ↦ (e, omega (arith, ap (λ x. x.pin_count) (t.others (frame_of s f p) m)))
    ];
  }

  Pinned-Alike :
      {s t u : BufferPool Page} {i file page_idx : ℕ} {new : Bool}
      → Pinned s t file page_idx i new
      → Alike t u
      → Pinned s u file page_idx i new
  Pinned-Alike {s = s} {i = i} P a = record {
    swizzled = Retouched-IsSwizzled (Alike-Retouched a) P.swizzled;
    clean = Alike-IsClean a P.clean;
    at_frame = a.frames_of _ _ ∙ P.at_frame;
    in_frame = P.in_frame;
    pinned = omega (arith, P.pinned, Alike-pin a i);
    kept = λ f p h. Retouched-contents (Alike-Retouched a) f p ∙ P.kept f p h;
    stays = λ f p n h. (
      a.frames_of f p ∙ (P.stays f p n h).0,
      omega (arith, (P.stays f p n h).1, Alike-pin a (frame_of s f p)),
    );
  }

  Alike-Pinned :
      {s t u : BufferPool Page} {i file page_idx : ℕ} {new : Bool}
      → Alike s t
      → Pinned t u file page_idx i new
      → Pinned s u file page_idx i new
  Alike-Pinned {s = s} {t = t} {u = u} a P = record {
    swizzled = P.swizzled;
    clean = P.clean;
    at_frame = P.at_frame;
    in_frame = P.in_frame;
    pinned = P.pinned;
    kept = λ f p h. P.kept f p h ∙ Retouched-contents (Alike-Retouched a) f p;
    stays = λ f p n h.
        let e = a.frames_of f p in
        let same = ap (λ j. (t.buffer_cache j).pin_count) e ∙ Alike-pin a (frame_of s f p) in
        let kept = P.stays f p (λ z. n (sym e ∙ z)) (omega (arith, h, same)) in
        (kept.0 ∙ e, omega (arith, kept.1, same, ap (λ j. (u.buffer_cache j).pin_count) e));
  }

  Alike-metrics :
      (s : BufferPool Page) (m : BufferManagerMetrics) → Alike s (record s { bm_metrics = m })
  Alike-metrics s m = record {
    sizes = refl;
    frames = λ i. refl;
    frames_of = λ f p. refl;
    disk = λ f p. refl;
  }

  Alike-count_miss : (new : Bool) (s : BufferPool Page) → Alike s (count_pin (count_miss new s))
  Alike-count_miss true s = Alike-metrics s _
  Alike-count_miss false s = Alike-metrics s _

  unmoved : {s s' : BufferPool Page} → IsSwizzled s → IsClean s → Alike s s' → Unmoved s s'
  unmoved w c a = record {
    swizzled = Retouched-IsSwizzled (Alike-Retouched a) w;
    clean = Alike-IsClean a c;
    alike = a;
  }

  pin_claimed-Pins :
      (s : BufferPool Page) (r : BufferPool Page × Option ℕ) (file page_idx : ℕ) (new : Bool)
      → IsSwizzled s
      → IsClean s
      → frame_of s file page_idx ≡ uint32_max
      → Claims s r file page_idx new
      → Pins s (pin_claimed r file page_idx new) file page_idx new
  pin_claimed-Pins s (s', none) file page_idx new w c out a = unmoved w c a.alike
  pin_claimed-Pins s (s', some i) file page_idx new w c out t =
      let P = Placed-Pinned w c out t in
      let a = Alike-count_miss new (enter s' file page_idx i) in
      subst
        (λ j. Pinned s (count_pin (count_miss new (enter s' file page_idx i))) file page_idx j new)
        (sym (a.frames_of file page_idx ∙ P.at_frame)) (Pinned-Alike P a)

  pin_without_acquiring_page_lock-Pins :
      (s : BufferPool Page) (file page_idx : ℕ) (new : Bool)
      → IsSwizzled s
      → IsClean s
      → HasRoom s file page_idx
      → Pins s (pin_without_acquiring_page_lock s file page_idx new) file page_idx new
  unfolding pin_without_acquiring_page_lock
  pin_without_acquiring_page_lock-Pins s file page_idx new w c room =
      elim (ℕ-cases (frame_of s file page_idx) uint32_max) [
        | inl e ↦
            rw (missed e, if◌then◌else◌)
              (pin_claimed-Pins s _ file page_idx new w c e
                (claim_a_frame-Claims s file page_idx new w.some_frames))
        | inr n ↦ rw (found n, if◌then◌else◌) (hit-Pinned s file page_idx new w c room n)
      ]
    where
      missed : frame_of s file page_idx ≡ uint32_max → is_a_frame (frame_of s file page_idx) ≡ false
      missed e = ap is_a_frame e

      found : frame_of s file page_idx ≢ uint32_max → is_a_frame (frame_of s file page_idx) ≡ true
      found n = ground arith

  Alike-HasRoom :
      {s t : BufferPool Page}
      → Alike s t
      → (file page_idx : ℕ) → HasRoom s file page_idx
      → HasRoom t file page_idx
  Alike-HasRoom {s = s} {t = t} a file page_idx room n =
      let e = a.frames_of file page_idx in
      omega (
        arith,
        room (λ z. n (e ∙ z)),
        ap (λ j. (t.buffer_cache j).pin_count) e,
        Alike-pin a (frame_of s file page_idx),
      )

  pub Alike-lock_page : (s : BufferPool Page) (f p : ℕ) → Alike s (lock_page s f p)
  Alike-lock_page s f p = record {
    sizes = refl;
    frames = λ i. refl;
    frames_of = λ g q. ground arith;
    disk = λ g q. ground arith;
  }

  pub Alike-release :
      (s : BufferPool Page) (f p : ℕ) → Alike s (set_file s f (release_page_lock (s.files f) p))
  Alike-release s f p = record {
    sizes = refl;
    frames = λ i. refl;
    frames_of = λ g q. ground arith;
    disk = λ g q. ground arith;
  }

  release_after-Pins :
      (s : BufferPool Page) (r : BufferPool Page × Outcome ℕ) (file page_idx : ℕ) (new : Bool)
      → Pins s r file page_idx new
      → Pins s (release_after r file page_idx) file page_idx new
  release_after-Pins s (s', returned i) file page_idx new P =
      Pinned-Alike P (Alike-release s' file page_idx)
  release_after-Pins s (s', thrown) file page_idx new u = u
  release_after-Pins s (s', waiting) file page_idx new u = u

  Alike-Pins :
      (s t : BufferPool Page) (r : BufferPool Page × Outcome ℕ) (file page_idx : ℕ) (new : Bool)
      → Alike s t
      → Pins t r file page_idx new
      → Pins s r file page_idx new
  Alike-Pins s t (s', returned i) file page_idx new a P = Alike-Pinned a P
  Alike-Pins s t (s', thrown) file page_idx new a u = record {
    swizzled = u.swizzled;
    clean = u.clean;
    alike = Alike-trans a u.alike;
  }
  Alike-Pins s t (s', waiting) file page_idx new a u = record {
    swizzled = u.swizzled;
    clean = u.clean;
    alike = Alike-trans a u.alike;
  }

  -- A pin of a page whose count of pins can still be raised either returns a frame that now holds
  -- the page, with its contents as they were, or throws or waits and moves no page. Every page but
  -- one pinned without being read keeps its contents, every pinned page keeps its frame and its
  -- pins, and the maps and the clean frames stay right.
  pub pin-Pins :
      (s : BufferPool Page) (file page_idx : ℕ) (new : Bool)
      → IsSwizzled s
      → IsClean s
      → HasRoom s file page_idx
      → Pins s (pin s file page_idx new) file page_idx new
  unfolding pin
  pin-Pins s file page_idx new w c room =
      let answer : Acquired (FileHandle Page) → BufferPool Page × Outcome ℕ = λ x.
        run_if_acquired (λ t. pin_without_acquiring_page_lock t file page_idx new) s file page_idx
          x in
      let b = Alike-lock_page s file page_idx in
      elim (acquire_cases s file page_idx) [
        | answer_out a _ ↦
            subst (λ x. Pins s (answer x) file page_idx new) (sym a) (unmoved w c (Alike-refl s))
        | answer_held a _ ↦
            subst (λ x. Pins s (answer x) file page_idx new) (sym a) (unmoved w c (Alike-refl s))
        | answer_acquired a _ ↦
            subst (λ x. Pins s (answer x) file page_idx new) (sym a)
              (release_after-Pins s _ file page_idx new (
                Alike-Pins s (lock_page s file page_idx) _ file page_idx new b (
                  pin_without_acquiring_page_lock-Pins (lock_page s file page_idx) file page_idx new
                    (Retouched-IsSwizzled (Alike-Retouched b) w) (Alike-IsClean b c)
                    (Alike-HasRoom b file page_idx room))))
      ]
