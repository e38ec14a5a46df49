-- ===== src/BooleanOperations/Examples.antt =====
-- Runs of the boolean operators on vectors, and uses of their theorems.
use graphflowdb.Base.{
  ◌-◌, ◌≡◌, refl, true, false, [], ◌∷◌, none, some, length, ltb, ◌==◌, if◌then◌else◌,
}
use graphflowdb.BooleanOperations.{
  and_operation, or_operation, xor_operation, not_operation, SelectionVector, ValueVector, execute,
  select, select_in, select_loop, filter_selected,
}
use graphflowdb.BooleanOperations.Truth.{truth, truth_of, min, max, operations_lem}
use graphflowdb.BooleanOperations.Execute.{positions, state_to_follow, Executes, execute_lem}
use graphflowdb.BooleanOperations.Select.{entries, filter, passes, filter_selected_lem}

-- The positions 1, 2 and 5 are selected.
chosen : SelectionVector
chosen = record {
  is_unfiltered = false;
  selected_positions_buffer = λ i. if i == 0 then 1 else if i == 1 then 2 else 5;
  selected_size = 3;
}

-- True at the positions up to 2; the position 2 is null.
low : ValueVector
unfolding chosen
low = record {
  values = λ p. if ltb p 3 then 1 else 0;
  nulls = λ p. p == 2;
  state = record { curr_idx = none; sel_vector = chosen };
}

-- A flat operand that is true.
flat : ValueVector
unfolding chosen
flat = record {
  values = λ p. 1;
  nulls = λ p. false;
  state = record { curr_idx = some 0; sel_vector = chosen };
}

low_unflat : (state_to_follow low flat).curr_idx ≡ none
unfolding low flat
low_unflat = refl

-- Of the positions 1, 2 and 5 only the first stays selected by AND.
selects_first :
    entries
      (select and_operation low flat).1.selected_positions_buffer
      (select and_operation low flat).1.selected_size
      0
    ≡ 1 ∷ []
unfolding low flat chosen select select_in select_loop and_operation
selects_first = refl

operations_lem_example :
    (truth_of (and_operation true false true false) ≡ min (truth true true) (truth false false))
    × (truth_of (or_operation true false true false) ≡ max (truth true true) (truth false false))
    × (truth_of (not_operation true true) ≡ 2 - truth true true)
    × (truth_of (xor_operation true false true false)
        ≡ min
            (max (truth true true) (truth false false))
            (2 - min (truth true true) (truth false false)))
operations_lem_example = operations_lem true false true false

execute_lem_example : Executes or_operation low flat low (execute or_operation low flat low) 5
execute_lem_example = execute_lem or_operation low flat low 5

filter_selected_lem_example :
    let s = (state_to_follow low flat).sel_vector in
    let kept = filter (passes and_operation low flat) (positions s s.selected_size 0) in
    let (found, s') = filter_selected and_operation low flat in
    (positions s' s'.selected_size 0 ≡ kept)
    × (s'.selected_size ≡ length kept)
    × (found ≡ ltb 0 (length kept))
filter_selected_lem_example = filter_selected_lem and_operation low flat low_unflat
