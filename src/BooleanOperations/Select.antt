-- ===== src/BooleanOperations/Select.antt =====
-- select: the positions that stay selected.
use mathlib.Core.List.{append-nil, append_assoc}
use graphflowdb.Base.{
  ℕ, zero, suc, ◌+◌, ◌≤◌, ◌<◌, ◌≡◌, refl, sym, ap, ◌∙◌, Bool, true, false, List, [], ◌∷◌, ◌++◌,
  none, arith, if◌then◌else◌, ◌==◌, ltb, length, Bool-cases,
}
use graphflowdb.BooleanOperations.{
  Operation, SelectionVector, selected_position, ValueVector, result_at, put, operand_position,
  select_loop, select_in, select, filter_selected, reset_selector_to_value_pos_buffer,
}
use graphflowdb.BooleanOperations.Execute.{
  positions, value_at, state_to_follow, result_at-value_at, result_state-state_to_follow,
}

-- The entries of a buffer from `i` on, `n` of them.
abbrev pub entries : (ℕ → ℕ) → ℕ → ℕ → List ℕ
entries b zero i = []
entries b (suc n) i = b i ∷ entries b n (i + 1)

-- The positions that pass a test.
abbrev pub filter : (ℕ → Bool) → List ℕ → List ℕ
filter p [] = []
filter p (x ∷ xs) = if p x then x ∷ filter p xs else filter p xs

-- The operator gives true on the operands at a position, as the loop reads them.
abbrev is_true : Operation → ValueVector → ValueVector → ℕ → Bool
is_true f left right pos =
    result_at f left right (operand_position left pos) (operand_position right pos) == 1

entries-append : (b : ℕ → ℕ) (n i : ℕ) → entries b (suc n) i ≡ entries b n i ++ (b (i + n) ∷ [])
entries-append b zero i = ground arith
entries-append b (suc n) i =
    let at : i + 1 + n ≡ i + suc n = omega arith in
    ap (λ xs. b i ∷ xs) (rw (sym at) (entries-append b n (i + 1)))

-- A write behind the entries, or past their end, leaves them.
entries-put_before : (b : ℕ → ℕ) (n i k x : ℕ) → k < i → entries (put k x b) n i ≡ entries b n i
entries-put_before b zero i k x h = refl
entries-put_before b (suc n) i k x h = ground (arith, entries-put_before b n (i + 1) k x)

entries-put_after : (b : ℕ → ℕ) (n i k x : ℕ) → i + n ≤ k → entries (put k x b) n i ≡ entries b n i
entries-put_after b zero i k x h = refl
entries-put_after b (suc n) i k x h = ground (arith, entries-put_after b n (i + 1) k x)

-- A write at an index already read leaves the positions to be read.
positions-put :
    (s : SelectionVector) (n i k x : ℕ)
    → k < i
    → positions (record s { selected_positions_buffer = put k x s.selected_positions_buffer }) n i
      ≡ positions s n i
positions-put s zero i k x h = refl
positions-put s (suc n) i k x h = ground (arith, positions-put s n (i + 1) k x)

entries-put_last :
    (b : ℕ → ℕ) (num pos : ℕ) → entries (put num pos b) (num + 1) 0 ≡ entries b num 0 ++ (pos ∷ [])
entries-put_last b num pos =
    let one : num + 1 ≡ suc num = omega arith in
    let here : put num pos b (0 + num) ≡ pos = ground arith in
    ap (λ n. entries (put num pos b) n 0) one
    ∙ entries-append (put num pos b) num 0
    ∙ ap (λ xs. xs ++ (put num pos b (0 + num) ∷ []))
        (entries-put_after b num 0 num pos (omega arith))
    ∙ ap (λ x. entries b num 0 ++ (x ∷ [])) here

-- The write of a position behind the selected ones, which stays if the test is true.
entries-kept :
    (t : Bool) (b : ℕ → ℕ) (num pos : ℕ) (kept : List ℕ)
    → entries (put num pos b) (num + (if t then 1 else 0)) 0 ++ kept
      ≡ entries b num 0 ++ (if t then pos ∷ kept else kept)
entries-kept false b num pos kept =
    let same : num + 0 ≡ num = omega arith in
    rw (same, entries-put_after b num 0 num pos (omega arith)) refl
entries-kept true b num pos kept =
    ap (λ xs. xs ++ kept) (entries-put_last b num pos)
    ∙ append_assoc (entries b num 0) (pos ∷ []) kept

length-kept :
    (t : Bool) (num pos : ℕ) (kept : List ℕ)
    → num + (if t then 1 else 0) + length kept ≡ num + length (if t then pos ∷ kept else kept)
length-kept false num pos kept = omega arith
length-kept true num pos kept = omega arith

select_loop_lem :
    (f : Operation) (left right : ValueVector) (n i num : ℕ) (s : SelectionVector)
    → num ≤ i
    → let kept = filter (is_true f left right) (positions s n i) in
      let s' = select_loop f left right n i num s in
      (s'.selected_size ≡ num + length kept)
      × (entries s'.selected_positions_buffer s'.selected_size 0
          ≡ entries s.selected_positions_buffer num 0 ++ kept)
unfolding select_loop
select_loop_lem f left right zero i num s h = (omega arith, sym (append-nil _))
select_loop_lem f left right (suc n) i num s h =
    let pos = selected_position s i in
    let t = is_true f left right pos in
    let written : SelectionVector = record s {
      selected_positions_buffer = put num pos s.selected_positions_buffer;
    } in
    let kept = filter (is_true f left right) (positions s n (i + 1)) in
    let rest : positions written n (i + 1) ≡ positions s n (i + 1) =
      positions-put s n (i + 1) num pos (omega arith) in
    let bound : num + (if t then 1 else 0) ≤ i + 1 = ground (arith, Bool-cases t) in
    let ih = select_loop_lem f left right n (i + 1) (num + (if t then 1 else 0)) written bound in
    let (size, buffer) = rw rest at ih in
    (
      size ∙ length-kept t num pos kept,
      buffer ∙ entries-kept t s.selected_positions_buffer num pos kept,
    )

-- The operator gives true at a position, where a flat operand is read at its current one.
abbrev pub passes : Operation → ValueVector → ValueVector → ℕ → Bool
passes f left right pos = value_at f left right pos == 1

filter-ext : (p q : ℕ → Bool) (xs : List ℕ) → ((x : ℕ) → p x ≡ q x) → filter p xs ≡ filter q xs
filter-ext p q [] h = refl
filter-ext p q (x ∷ xs) h = ground (arith, h x, filter-ext p q xs h)

select_loop-is_unfiltered :
    (f : Operation) (left right : ValueVector) (n i num : ℕ) (s : SelectionVector)
    → (select_loop f left right n i num s).is_unfiltered ≡ s.is_unfiltered
unfolding select_loop
select_loop-is_unfiltered f left right zero i num s = refl
select_loop-is_unfiltered f left right (suc n) i num s =
    select_loop-is_unfiltered f left right n (i + 1) _ _

-- Of a selection vector that points to its buffer the positions are the entries of the buffer.
positions-entries :
    (s : SelectionVector) (n i : ℕ)
    → s.is_unfiltered ≡ false
    → positions s n i ≡ entries s.selected_positions_buffer n i
positions-entries s zero i h = refl
positions-entries s (suc n) i h = ground (arith, positions-entries s n (i + 1) h)

reset_positions :
    (b : Bool) (s : SelectionVector)
    → s.is_unfiltered ≡ b
    → let s' = if b then reset_selector_to_value_pos_buffer s else s in
      (s'.selected_size ≡ s.selected_size)
      × (positions s' s'.selected_size 0 ≡ entries s.selected_positions_buffer s.selected_size 0)
reset_positions true s e =
    (refl, positions-entries (reset_selector_to_value_pos_buffer s) s.selected_size 0 refl)
reset_positions false s e = (refl, positions-entries s s.selected_size 0 e)

-- On operands of which one is not flat, the filter leaves as selected exactly those positions of
-- the state of the operand that is not flat, of the left one when both are not, in their order, at
-- which the operator gives true, where a flat operand is read at its current position; and it says
-- whether there is one. It reads the positions and writes the selected ones in the same buffer.
pub filter_selected_lem :
    (f : Operation) (left right : ValueVector)
    → (state_to_follow left right).curr_idx ≡ none
    → let s = (state_to_follow left right).sel_vector in
      let kept = filter (passes f left right) (positions s s.selected_size 0) in
      let (found, s') = filter_selected f left right in
      (positions s' s'.selected_size 0 ≡ kept)
      × (s'.selected_size ≡ length kept)
      × (found ≡ ltb 0 (length kept))
unfolding filter_selected select select_in
filter_selected_lem f left right unflat =
    let same = result_state-state_to_follow left right in
    let s = (state_to_follow left right).sel_vector in
    let (size, buffer) = select_loop_lem f left right s.selected_size 0 0 s (omega arith) in
    let agree =
      filter-ext (is_true f left right) (passes f left right) (positions s s.selected_size 0)
        (λ x. ap (λ n. n == 1) (result_at-value_at f left right x)) in
    let done = select_loop f left right s.selected_size 0 0 s in
    let (as_before, places) = reset_positions done.is_unfiltered done refl in
    let count : 0 + length (filter (passes f left right) (positions s s.selected_size 0))
        ≡ length (filter (passes f left right) (positions s s.selected_size 0)) =
      omega arith in
    let size' = size ∙ ap (λ xs. 0 + length xs) agree ∙ count in
    rw (same, unflat) (places ∙ buffer ∙ agree, as_before ∙ size', ap (λ n. ltb 0 n) size')
