-- ===== src/BooleanOperations/Execute.antt =====
-- execute: the result at every position.
use graphflowdb.Base.{
  ℕ, zero, suc, ◌+◌, ◌≡◌, refl, ap, sym, ◌∙◌, Bool, true, false, not, ◌&&◌, List, [], ◌∷◌, Option,
  none, some, arith, if◌then◌else◌, ◌==◌, contains, Bool-cases, inl, inr,
}
use graphflowdb.BooleanOperations.{
  null_bool, Operation, SelectionVector, selected_position, ValueVector, result_at,
  execute_on_value, position_in, operand_position, driving, DataChunkState, execute_loop,
  execute_in, result_state, execute,
}

-- The positions of the indexes from `i` on, `n` of them.
abbrev pub positions : SelectionVector → ℕ → ℕ → List ℕ
positions s zero i = []
positions s (suc n) i = selected_position s i ∷ positions s n (i + 1)

-- The positions of a state: the current one if it is flat, else the selected ones.
abbrev pub positions_of : Option ℕ → SelectionVector → List ℕ
positions_of none s = positions s s.selected_size 0
positions_of (some i) s = selected_position s i ∷ []

-- What an execution leaves at a position.
abbrev pub Computes :
    Operation → ValueVector → ValueVector → List ℕ → ValueVector → ValueVector → ℕ → Type 0
Computes f left right ps result result' p =
    let value = result_at f left right (operand_position left p) (operand_position right p) in
    (result'.values p ≡ (if contains p ps then value else result.values p))
    × (result'.nulls p ≡ (if contains p ps then value == null_bool else result.nulls p))

execute_on_value-Computes :
    (f : Operation) (left right : ValueVector) (pos : ℕ) (result : ValueVector) (p : ℕ)
    → Computes f left right
        (pos ∷ [])
        result
        (execute_on_value f left right result
          (operand_position left pos)
          (operand_position right pos)
          pos)
        p
unfolding execute_on_value
execute_on_value-Computes f left right pos result p = elim (Bool-cases (pos == p)) [
  | inl e ↦ let same : pos ≡ p = ground (arith, e) in rw (e, same) (refl, refl)
  | inr e ↦ rw e (refl, refl)
]

-- A first position, and then the others.
Computes-cons :
    (f : Operation) (left right : ValueVector) (pos : ℕ) (ps : List ℕ)
    (first second third : ValueVector) (p : ℕ)
    → Computes f left right (pos ∷ []) first second p
    → Computes f left right ps second third p
    → Computes f left right (pos ∷ ps) first third p
Computes-cons f left right pos ps first second third p h k = ground (arith, h.0, h.1, k.0, k.1)

execute_loop-Computes :
    (f : Operation) (left right : ValueVector) (s : SelectionVector) (n i : ℕ)
    (result : ValueVector) (p : ℕ)
    → Computes f left right (positions s n i) result (execute_loop f left right s n i result) p
unfolding execute_loop
execute_loop-Computes f left right s zero i result p = (refl, refl)
execute_loop-Computes f left right s (suc n) i result p =
    let pos = selected_position s i in
    let first =
      execute_on_value f left right result (operand_position left pos) (operand_position right pos)
        pos in
    Computes-cons f left right pos (positions s n (i + 1)) result first
      (execute_loop f left right s n (i + 1) first) p
      (execute_on_value-Computes f left right pos result p)
      (execute_loop-Computes f left right s n (i + 1) first p)

execute_in-Computes :
    (f : Operation) (left right : ValueVector) (s : SelectionVector) (result : ValueVector)
    (o : Option ℕ) (p : ℕ)
    → Computes f left right (positions_of o s) result (execute_in f left right s result o) p
unfolding execute_in
execute_in-Computes f left right s result none p =
    execute_loop-Computes f left right s s.selected_size 0 result p
execute_in-Computes f left right s result (some i) p =
    execute_on_value-Computes f left right (selected_position s i) result p

-- The positions of the two operands for a position of the result: a flat operand is read at its
-- current position, and another one at the position of the result.
abbrev pub operands_at : Option ℕ → Option ℕ → SelectionVector → SelectionVector → ℕ → ℕ × ℕ
operands_at (some i) (some j) left right p = (selected_position left i, selected_position right j)
operands_at (some i) none left right p = (selected_position left i, p)
operands_at none (some j) left right p = (p, selected_position right j)
operands_at none none left right p = (p, p)

-- The operator on the two operands for a position of the result.
abbrev pub value_at : Operation → ValueVector → ValueVector → ℕ → ℕ
value_at f left right p =
    let (l_pos, r_pos) =
      operands_at left.state.curr_idx right.state.curr_idx left.state.sel_vector
        right.state.sel_vector p in
    result_at f left right l_pos r_pos

-- The state of the operand that is not flat, of the left one when both or none are.
abbrev pub is_flat : ValueVector → Bool
is_flat v = elim (v.state.curr_idx) [ none ↦ false | some i ↦ true ]

abbrev pub state_to_follow : ValueVector → ValueVector → DataChunkState
state_to_follow left right = if is_flat left && not (is_flat right) then right.state else left.state

operand_position-operands_at :
    (o r : Option ℕ) (s t : SelectionVector) (p : ℕ)
    → (position_in o s p, position_in r t p) ≡ operands_at o r s t p
operand_position-operands_at (some i) (some j) s t p = refl
operand_position-operands_at (some i) none s t p = refl
operand_position-operands_at none (some j) s t p = refl
operand_position-operands_at none none s t p = refl

pub result_at-value_at :
    (f : Operation) (left right : ValueVector) (p : ℕ)
    → result_at f left right (operand_position left p) (operand_position right p)
      ≡ value_at f left right p
result_at-value_at f left right p =
    ap (λ x. result_at f left right x.0 x.1)
      (operand_position-operands_at left.state.curr_idx right.state.curr_idx left.state.sel_vector
        right.state.sel_vector p)

driving-follow :
    (o r : Option ℕ) (s t : DataChunkState)
    → driving o r s t ≡ (
        if elim o [ none ↦ false | some i ↦ true ] && not (elim r [ none ↦ false | some i ↦ true ])
        then t
        else s)
driving-follow (some i) (some j) s t = refl
driving-follow (some i) none s t = refl
driving-follow none (some j) s t = refl
driving-follow none none s t = refl

pub result_state-state_to_follow :
    (left right : ValueVector) → result_state left right ≡ state_to_follow left right
result_state-state_to_follow left right =
    driving-follow left.state.curr_idx right.state.curr_idx left.state right.state

-- What an execution leaves at a position, with the state of the result.
pub record Executes (f : Operation) (left right result result' : ValueVector) (p : ℕ) : Type 0 where
  pub followed : result'.state ≡ state_to_follow left right
  pub value : result'.values p ≡ (
      if contains p (positions_of result'.state.curr_idx result'.state.sel_vector)
      then value_at f left right p
      else result.values p)
  pub null : result'.nulls p ≡ (
      if contains p (positions_of result'.state.curr_idx result'.state.sel_vector)
      then value_at f left right p == null_bool
      else result.nulls p)

execute_loop-state :
    (f : Operation) (left right : ValueVector) (s : SelectionVector) (n i : ℕ)
    (result : ValueVector)
    → (execute_loop f left right s n i result).state ≡ result.state
unfolding execute_loop execute_on_value
execute_loop-state f left right s zero i result = refl
execute_loop-state f left right s (suc n) i result = execute_loop-state f left right s n (i + 1) _

execute_in-state :
    (f : Operation) (left right : ValueVector) (s : SelectionVector) (result : ValueVector)
    (o : Option ℕ)
    → (execute_in f left right s result o).state ≡ result.state
unfolding execute_in execute_on_value
execute_in-state f left right s result none =
    execute_loop-state f left right s s.selected_size 0 result
execute_in-state f left right s result (some i) = refl

-- Whether the operands are flat or not, and filtered or not: the result gets the state of the
-- operand that is not flat, and of the left one when both or none are. At each position of that
-- state execute leaves the value of the operator on the operands, a flat one read at its current
-- position and another one at that position, with the null bit set exactly for a null result. All
-- other positions stay.
pub execute_lem :
    (f : Operation) (left right result : ValueVector) (p : ℕ)
    → Executes f left right result (execute f left right result) p
unfolding execute
execute_lem f left right result p =
    let state = result_state left right in
    let kept =
      execute_in-state f left right state.sel_vector (record result { state = state })
        state.curr_idx in
    let (value, null) =
      execute_in-Computes f left right state.sel_vector (record result { state = state })
        state.curr_idx p in
    let same = result_at-value_at f left right p in
    record {
      followed = kept ∙ result_state-state_to_follow left right;
      value = rw (kept, sym same) value;
      null = rw (kept, sym same) null;
    }
