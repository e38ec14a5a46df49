-- ===== src/BooleanOperations/Unary.antt =====
-- The executor of the unary operator: UnaryBooleanOperationExecutor of src/function/boolean.
use graphflowdb.Base.{
  ℕ, zero, suc, ◌+◌, ◌≡◌, refl, ap, Bool, Option, none, some, if◌then◌else◌, ◌==◌, ltb,
}
use graphflowdb.BooleanOperations.{
  null_bool, Operation, SelectionVector, selected_position, ValueVector, as_bool, put,
  execute_on_value, execute_loop, execute_in, execute, select_loop, select_in, select,
}

abbrev pub UnaryOperation : Type 0
UnaryOperation = Bool → Bool → ℕ

abbrev pub unary_result_at : UnaryOperation → ValueVector → ℕ → ℕ
unary_result_at f operand pos = f (as_bool (operand.values pos)) (operand.nulls pos)

pub unary_execute_on_value : UnaryOperation → ValueVector → ℕ → ValueVector → ValueVector
unary_execute_on_value f operand pos result =
    let value = unary_result_at f operand pos in
    record result {
      values = put pos value result.values;
      nulls = put pos (value == null_bool) result.nulls;
    }

pub unary_execute_loop :
    UnaryOperation → ValueVector → SelectionVector → ℕ → ℕ → ValueVector → ValueVector
unfolding unary_execute_on_value
unary_execute_loop f operand s zero i result = result
unary_execute_loop f operand s (suc n) i result =
    unary_execute_loop f operand s n (i + 1)
      (unary_execute_on_value f operand (selected_position s i) result)

pub unary_execute_in :
    UnaryOperation → ValueVector → SelectionVector → ValueVector → Option ℕ → ValueVector
unfolding unary_execute_on_value unary_execute_loop
unary_execute_in f operand s result none = unary_execute_loop f operand s s.selected_size 0 result
unary_execute_in f operand s result (some i) =
    unary_execute_on_value f operand (selected_position s i) result

-- executeSwitch; the overflow buffer that it resets holds no values of this type.
pub unary_execute : UnaryOperation → ValueVector → ValueVector → ValueVector
unfolding unary_execute_in
unary_execute f operand result =
    unary_execute_in f operand operand.state.sel_vector (record result { state = operand.state })
      operand.state.curr_idx

pub unary_select_loop : UnaryOperation → ValueVector → ℕ → ℕ → ℕ → SelectionVector → SelectionVector
unary_select_loop f operand zero i num s = record s { selected_size = num }
unary_select_loop f operand (suc n) i num s =
    let pos = selected_position s i in
    let value = unary_result_at f operand pos in
    unary_select_loop f operand n (i + 1) (num + (if value == 1 then 1 else 0))
      (record s { selected_positions_buffer = put num pos s.selected_positions_buffer })

pub unary_select_in :
    UnaryOperation → ValueVector → SelectionVector → Option ℕ → Bool × SelectionVector
unfolding unary_select_loop
unary_select_in f operand s none =
    let s' = unary_select_loop f operand s.selected_size 0 0 s in (ltb 0 s'.selected_size, s')
unary_select_in f operand s (some i) = (unary_result_at f operand (selected_position s i) == 1, s)

pub unary_select : UnaryOperation → ValueVector → Bool × SelectionVector
unfolding unary_select_in
unary_select f operand = unary_select_in f operand operand.state.sel_vector operand.state.curr_idx

-- The binary operator that looks at its left operand only.
abbrev pub on_left : UnaryOperation → Operation
on_left f left right is_left_null is_right_null = f left is_left_null

-- On an operand that is not flat the loops of the two executors agree.
unary_execute_loop-execute_loop :
    (f : UnaryOperation) (values : ℕ → ℕ) (nulls : ℕ → Bool) (s t : SelectionVector) (n i : ℕ)
    (result : ValueVector)
    → let v : ValueVector = record {
      values = values;
      nulls = nulls;
      state = record { curr_idx = none; sel_vector = t };
    } in
      unary_execute_loop f v s n i result ≡ execute_loop (on_left f) v v s n i result
unfolding unary_execute_loop execute_loop unary_execute_on_value execute_on_value
unary_execute_loop-execute_loop f values nulls s t zero i result = refl
unary_execute_loop-execute_loop f values nulls s t (suc n) i result =
    unary_execute_loop-execute_loop f values nulls s t n (i + 1) _

unary_select_loop-select_loop :
    (f : UnaryOperation) (values : ℕ → ℕ) (nulls : ℕ → Bool) (t : SelectionVector) (n i num : ℕ)
    (s : SelectionVector)
    → let v : ValueVector = record {
      values = values;
      nulls = nulls;
      state = record { curr_idx = none; sel_vector = t };
    } in
      unary_select_loop f v n i num s ≡ select_loop (on_left f) v v n i num s
unfolding unary_select_loop select_loop
unary_select_loop-select_loop f values nulls t zero i num s = refl
unary_select_loop-select_loop f values nulls t (suc n) i num s =
    unary_select_loop-select_loop f values nulls t n (i + 1) _ _

in_state :
    (f : UnaryOperation) (values : ℕ → ℕ) (nulls : ℕ → Bool) (s : SelectionVector) (o : Option ℕ)
    (result : ValueVector)
    → let v : ValueVector = record {
      values = values;
      nulls = nulls;
      state = record { curr_idx = o; sel_vector = s };
    } in
      (unary_execute f v result ≡ execute (on_left f) v v result)
      × (unary_select f v ≡ select (on_left f) v v)
unfolding unary_execute unary_execute_in execute execute_in unary_select unary_select_in select
    select_in unary_execute_on_value execute_on_value
in_state f values nulls s none result = (
  unary_execute_loop-execute_loop f values nulls s s s.selected_size 0 _,
  ap (λ s'. (ltb 0 s'.selected_size, s'))
      (unary_select_loop-select_loop f values nulls s s.selected_size 0 0 s),
)
in_state f values nulls s (some i) result = (refl, refl)

-- The executor of the unary operator does on an operand what the binary executor does on the operand
-- twice, with the binary operator that ignores its right operand: the same result vector, and the
-- same selection.
pub unary_execute-execute :
    (f : UnaryOperation) (operand result : ValueVector)
    → (unary_execute f operand result ≡ execute (on_left f) operand operand result)
      × (unary_select f operand ≡ select (on_left f) operand operand)
unary_execute-execute f operand result =
    in_state f operand.values operand.nulls operand.state.sel_vector operand.state.curr_idx result
