-- ===== src/BooleanOperations.antt =====
-- The boolean operators on vectors: src/function/boolean, with the selection vector and the state
-- of a data chunk from src/common/include/data_chunk/data_chunk_state.h.
--
-- The buffers of a vector are functions from positions. The result vector of execute is another one
-- than the operands. The selection vector that select writes is the one of the operands' state that
-- it reads, as in a filter.
use graphflowdb.Base.{
  ℕ, zero, suc, ◌+◌, Bool, true, false, ◌&&◌, ◌||◌, not, List, [], ◌∷◌, Option, none, some, arith,
  if◌then◌else◌, ◌==◌, ltb,
}
pub mod Truth
pub mod Execute
pub mod Select
pub mod Unary
mod Examples

abbrev pub null_bool : ℕ
null_bool = 2

-- The uint8_t of a bool.
abbrev pub code : Bool → ℕ
code false = 0
code true = 1

abbrev pub Operation : Type 0
Operation = Bool → Bool → Bool → Bool → ℕ

pub and_operation : Operation
and_operation left right is_left_null is_right_null =
    if not left && not is_left_null
    then code false
    else if not right && not is_right_null
    then code false
    else if is_left_null || is_right_null
    then null_bool
    else code true

pub or_operation : Operation
or_operation left right is_left_null is_right_null =
    if left && not is_left_null
    then code true
    else if right && not is_right_null
    then code true
    else if is_left_null || is_right_null
    then null_bool
    else code false

abbrev pub xor : Bool → Bool → Bool
xor false b = b
xor true b = not b

pub xor_operation : Operation
xor_operation left right is_left_null is_right_null =
    if is_left_null || is_right_null then null_bool else code (xor left right)

pub not_operation : Bool → Bool → ℕ
not_operation operand is_null = if is_null then null_bool else code (not operand)

-- `is_unfiltered` says that selectedPositions points to the positions 0, 1, 2, ... and not to the
-- buffer.
pub record SelectionVector : Type 0 where
  pub is_unfiltered : Bool
  pub selected_positions_buffer : ℕ → ℕ
  pub selected_size : ℕ

-- selectedPositions[i].
abbrev pub selected_position : SelectionVector → ℕ → ℕ
selected_position s i = if s.is_unfiltered then i else s.selected_positions_buffer i

-- `curr_idx` is `none` for the -1 of a state that is not flat.
pub record DataChunkState : Type 0 where
  pub curr_idx : Option ℕ
  pub sel_vector : SelectionVector

-- A position holds a byte, which is read as a bool, and a null bit.
pub record ValueVector : Type 0 where
  pub values : ℕ → ℕ
  pub nulls : ℕ → Bool
  pub state : DataChunkState

abbrev pub as_bool : ℕ → Bool
as_bool n = not (n == 0)

-- FUNC::operation on the values and null bits at two positions.
abbrev pub result_at : Operation → ValueVector → ValueVector → ℕ → ℕ → ℕ
result_at f left right l_pos r_pos =
    f (as_bool (left.values l_pos)) (as_bool (right.values r_pos)) (left.nulls l_pos)
      (right.nulls r_pos)

abbrev pub is_none : Option ℕ → Bool
is_none none = true
is_none (some i) = false

-- A write to a buffer.
abbrev pub put {ℓ} : {A : Type ℓ} → ℕ → A → (ℕ → A) → ℕ → A
put p a f q = if p == q then a else f q

pub execute_on_value : Operation → ValueVector → ValueVector → ValueVector → ℕ → ℕ → ℕ → ValueVector
execute_on_value f left right result l_pos r_pos res_pos =
    let value = result_at f left right l_pos r_pos in
    record result {
      values = put res_pos value result.values;
      nulls = put res_pos (value == null_bool) result.nulls;
    }

-- Which operands are flat: their position is the one of the current index in every round.
abbrev pub position_in : Option ℕ → SelectionVector → ℕ → ℕ
position_in none s pos = pos
position_in (some curr_idx) s pos = selected_position s curr_idx

-- The position of an operand in the round for the position `pos`.
abbrev pub operand_position : ValueVector → ℕ → ℕ
operand_position v pos = position_in v.state.curr_idx v.state.sel_vector pos

-- The loop of execute, from index `i` with `n` rounds to go.
pub execute_loop :
    Operation → ValueVector → ValueVector → SelectionVector → ℕ → ℕ → ValueVector → ValueVector
unfolding execute_on_value
execute_loop f left right s zero i result = result
execute_loop f left right s (suc n) i result =
    let pos = selected_position s i in
    execute_loop f left right s n (i + 1) (
      execute_on_value f left right result (operand_position left pos) (operand_position right pos)
        pos)

-- The state that drives the loop: the right operand's when only the left one is flat.
abbrev pub driving : Option ℕ → Option ℕ → DataChunkState → DataChunkState → DataChunkState
driving (some i) none left right = right
driving (some i) (some j) left right = left
driving none r left right = left

abbrev pub result_state : ValueVector → ValueVector → DataChunkState
result_state left right = driving left.state.curr_idx right.state.curr_idx left.state right.state

-- The choice between the single round of a flat state and the loop.
pub execute_in :
    Operation → ValueVector → ValueVector → SelectionVector → ValueVector → Option ℕ → ValueVector
unfolding execute_on_value execute_loop
execute_in f left right s result none = execute_loop f left right s s.selected_size 0 result
execute_in f left right s result (some i) =
    let pos = selected_position s i in
    execute_on_value f left right result (operand_position left pos) (operand_position right pos)
      pos

pub execute : Operation → ValueVector → ValueVector → ValueVector → ValueVector
unfolding execute_in
execute f left right result =
    let state = result_state left right in
    execute_in f left right state.sel_vector (record result { state = state }) state.curr_idx

-- selectOnValue: the position is written at the end of those selected so far, and stays if the
-- result is true.
pub select_loop :
    Operation → ValueVector → ValueVector → ℕ → ℕ → ℕ → SelectionVector → SelectionVector
select_loop f left right zero i num s = record s { selected_size = num }
select_loop f left right (suc n) i num s =
    let pos = selected_position s i in
    let value = result_at f left right (operand_position left pos) (operand_position right pos) in
    select_loop f left right n (i + 1) (num + (if value == 1 then 1 else 0))
      (record s { selected_positions_buffer = put num pos s.selected_positions_buffer })

-- The result, and the selection vector that is left.
pub select_in :
    Operation → ValueVector → ValueVector → SelectionVector → Option ℕ → Bool × SelectionVector
unfolding select_loop
select_in f left right s none =
    let s' = select_loop f left right s.selected_size 0 0 s in (ltb 0 s'.selected_size, s')
select_in f left right s (some i) =
    let pos = selected_position s i in
    (result_at f left right (operand_position left pos) (operand_position right pos) == 1, s)

pub select : Operation → ValueVector → ValueVector → Bool × SelectionVector
unfolding select_in
select f left right =
    let state = result_state left right in select_in f left right state.sel_vector state.curr_idx

-- The select of a filter: afterwards an unfiltered selection vector points to the buffer.
abbrev pub reset_selector_to_value_pos_buffer : SelectionVector → SelectionVector
reset_selector_to_value_pos_buffer s = record s { is_unfiltered = false }

pub filter_selected : Operation → ValueVector → ValueVector → Bool × SelectionVector
unfolding select
filter_selected f left right =
    let (found, s) = select f left right in
    (
      found,
      if is_none (result_state left right).curr_idx && s.is_unfiltered
          then reset_selector_to_value_pos_buffer s
          else s,
    )
