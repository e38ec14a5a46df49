-- ===== src/BufferPool/Clock.antt =====
-- The two rounds of the clock in claimAFrame of src/storage/buffer_manager/buffer_pool.cpp are
-- enough: the search finds a frame when one can be given away.
use graphflowdb.Base.{
  ℕ, zero, suc, ◌+◌, ◌*◌, ◌%◌, ◌^◌, ◌-◌, ◌<◌, ◌≡◌, refl, sym, ap, ◌∙◌, inl, inr, Bool, arith, leb,
  Bool-cases, Option, none, some,
}
use graphflowdb.BufferPool.{BufferPool, Tried, taken, refused, failed}
use graphflowdb.BufferPool.Claim.{try_frame, claim_loop, claim_a_frame, move_clock_hand}
use graphflowdb.BufferPool.Effects.{is_locked, Similar, Alike-pin}
use graphflowdb.BufferPool.Availability.{
  IsAvailable, IsReady, IsInside, Progress, done, passed, try_Progress,
}
use native.Mathlib.Nat.{mod-lt, mod-eq_of_lt, add-mod_right}
use mathlib.Core.Path.{subst}
use mathlib.Core.Bool.{true≢false}

-- How far ahead of the clock a frame is.
ahead : (n h j : ℕ) → h < n → j < n → (d : ℕ) × (d < n) × ((h + d) % n ≡ j)
ahead n h j lt lt' = elim (Bool-cases (leb h j)) [
  | inl e ↦ (j - h, omega arith, ap (λ x. x % n) (ground arith) ∙ mod-eq_of_lt lt')
  | inr e ↦ (
    j + n - h,
    ground arith,
    ap (λ x. x % n) (ground arith) ∙ add-mod_right j n ∙ mod-eq_of_lt lt',
  )
]

module _ {Page : Type 0} where
  abbrev pub Finds : BufferPool Page × Option ℕ → Type 0
  Finds r = (i : ℕ) × (r.1 ≡ some i)

  Similar-IsAvailable :
      {s s' : BufferPool Page} → Similar s s' → (i : ℕ) → IsAvailable s i → IsAvailable s' i
  Similar-IsAvailable a i (inl e) = inl (Alike-pin a.alike i ∙ e)
  Similar-IsAvailable {s = s} {s' = s'} a i (inr e) = inr (
    Alike-pin a.alike i ∙ e.0,
    a.locks _ _ ∙ ap (λ x. is_locked s x.file_handle_ptr x.page_idx) (a.alike.frames i) ∙ e.1,
  )

  Similar-IsInside : {s s' : BufferPool Page} → Similar s s' → IsInside s → IsInside s'
  Similar-IsInside {s = s} {s' = s'} a h i lt n =
      let was = h i (omega (arith, lt, a.alike.sizes)) (λ e. n (Alike-pin a.alike i ∙ e)) in
      let page = ap (λ x. x.page_idx) (a.alike.frames i) in
      let file = ap (λ x. x.file_handle_ptr) (a.alike.frames i) in
      omega (
        arith,
        was,
        page,
        a.capacities (s'.buffer_cache i).file_handle_ptr,
        ap (λ g. (s.files g).page_capacity) file,
      )

  -- The frame that the clock visits in a round.
  abbrev visited : BufferPool Page → ℕ → ℕ → ℕ
  visited s hand i = (hand % s.num_frames + i) % s.num_frames

  module _ (file page_idx : ℕ) (new : Bool) where
    -- The rest of the loop after the try of a frame.
    abbrev pub next : ℕ → ℕ → ℕ → ℕ → BufferPool Page × Tried → BufferPool Page × Option ℕ
    next rounds hand i frame_idx r = elim r.1 [
      | taken ↦ (move_clock_hand r.0 ((hand + i + 1) % 2 ^ 64), some frame_idx)
      | refused ↦ claim_loop rounds r.0 hand (i + 1) file page_idx new
      | failed ↦ (r.0, none)
    ]

    -- The loop finds a frame when it gets to the frame `j`, `d` rounds from now.
    abbrev Reaches : ℕ → ℕ → ℕ → BufferPool Page → ℕ → ℕ → Type 0
    Reaches rounds hand i s d j =
        IsInside s
        → 0 < s.num_frames
        → IsAvailable s j
        → visited s hand (i + d) ≡ j
        → Finds (claim_loop rounds s hand i file page_idx new)

    later :
        (s s' : BufferPool Page) (rounds hand i d j : ℕ)
        → Similar s s'
        → Reaches rounds hand (i + 1) s' d j
        → IsInside s
        → 0 < s.num_frames
        → IsAvailable s j
        → visited s hand (i + 1 + d) ≡ j
        → Finds (claim_loop rounds s' hand (i + 1) file page_idx new)
    later s s' rounds hand i d j p ih inside pos a e =
        ih (Similar-IsInside p inside) (omega (arith, pos, p.alike.sizes))
          (Similar-IsAvailable p j a) (ap (λ n. (hand % n + (i + 1 + d)) % n) p.alike.sizes ∙ e)

    -- It takes the frame if the frame is ready.
    finds_ready :
        (rounds hand i : ℕ) (s : BufferPool Page) (d j : ℕ)
        → d < rounds
        → IsReady s j
        → Reaches rounds hand i s d j
    unfolding claim_loop
    finds_ready zero hand i s d j lt r inside pos a e = absurd (omega (arith, lt))
    finds_ready (suc rounds) hand i s d j lt r inside pos a e =
        go d (try_frame s (visited s hand i) file page_idx new)
          (try_Progress s (visited s hand i) file page_idx new (mod-lt _ pos) inside)
          (λ s' d' lt' r'. finds_ready rounds hand (i + 1) s' d' j lt' r') lt e
      where
        go :
            (d : ℕ) (t : BufferPool Page × Tried)
            → Progress s (visited s hand i) t
            → ((s' : BufferPool Page) (d : ℕ)
                → d < rounds
                → IsReady s' j
                → Reaches rounds hand (i + 1) s' d j)
            → d < suc rounds
            → visited s hand (i + d) ≡ j
            → Finds (next rounds hand i (visited s hand i) t)
        go d t (done s') ih lt e = (visited s hand i, refl)
        go zero t (passed s' p keep found) ih lt e =
            let at : visited s hand i ≡ j = ap (visited s hand) (omega arith) ∙ e in
            absurd (
              true≢false
                (sym (found (subst (IsAvailable s) (sym at) a)).0 ∙ subst (IsReady s) (sym at) r))
        go (suc d) t (passed s' p keep found) ih lt e =
            later s s' rounds hand i d j p (ih s' d (omega (arith, lt)) (keep j r)) inside pos a
              (ap (visited s hand) (omega arith) ∙ e)

    -- And if it is not, the frame is ready a full round later.
    finds_available :
        (rounds hand i : ℕ) (s : BufferPool Page) (d j : ℕ)
        → d + s.num_frames < rounds
        → Reaches rounds hand i s d j
    unfolding claim_loop
    finds_available zero hand i s d j lt inside pos a e = absurd (omega (arith, lt))
    finds_available (suc rounds) hand i s d j lt inside pos a e =
        go d (try_frame s (visited s hand i) file page_idx new)
          (try_Progress s (visited s hand i) file page_idx new (mod-lt _ pos) inside)
          (λ s' d' lt'. finds_available rounds hand (i + 1) s' d' j lt') lt e
      where
        go :
            (d : ℕ) (t : BufferPool Page × Tried)
            → Progress s (visited s hand i) t
            → ((s' : BufferPool Page) (d : ℕ)
                → d + s'.num_frames < rounds
                → Reaches rounds hand (i + 1) s' d j)
            → d + s.num_frames < suc rounds
            → visited s hand (i + d) ≡ j
            → Finds (next rounds hand i (visited s hand i) t)
        go d t (done s') ih lt e = (visited s hand i, refl)
        go zero t (passed s' p keep found) ih lt e =
            let at : visited s hand i ≡ j = ap (visited s hand) (omega arith) ∙ e in
            let d = s.num_frames - 1 in
            later s s' rounds hand i d j p
              (finds_ready rounds hand (i + 1) s' d j (omega (arith, lt, pos))
                (subst (IsReady s') at (found (subst (IsAvailable s) (sym at) a)).1))
              inside pos a
              (ap (λ n. n % s.num_frames) (omega (arith, pos))
                ∙ add-mod_right (hand % s.num_frames + i) s.num_frames
                ∙ at)
        go (suc d) t (passed s' p keep found) ih lt e =
            later s s' rounds hand i d j p (ih s' d (omega (arith, lt, p.alike.sizes))) inside pos a
              (ap (visited s hand) (omega arith) ∙ e)

  -- If some frame is empty, or unpinned with its page's lock free, the search finds a frame.
  pub claim_a_frame-Finds :
      (s : BufferPool Page) (file page_idx : ℕ) (new : Bool) (j : ℕ)
      → IsInside s
      → 2 * s.num_frames < 2 ^ 32
      → j < s.num_frames
      → IsAvailable s j
      → Finds (claim_a_frame s file page_idx new)
  unfolding claim_a_frame
  claim_a_frame-Finds s file page_idx new j inside small lt a =
      let pos : 0 < s.num_frames = omega (arith, lt) in
      let at = ahead s.num_frames (s.clock_hand % s.num_frames) j (mod-lt _ pos) lt in
      finds_available file page_idx new (2 * s.num_frames % 2 ^ 32) s.clock_hand 0 s at.0 j
        (omega (arith, at.1, small)) inside pos a (ap (visited s s.clock_hand) (omega arith) ∙ at.2)
