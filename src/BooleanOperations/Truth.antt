-- ===== src/BooleanOperations/Truth.antt =====
-- The operators as connectives of three-valued logic.
use graphflowdb.Base.{ℕ, ◌-◌, ◌≡◌, refl, Bool, true, false, if◌then◌else◌, ◌==◌, ltb}
use graphflowdb.BooleanOperations.{
  null_bool, and_operation, or_operation, xor_operation, not_operation,
}

-- The truth of an operand: false, null and true, from 0 to 2.
abbrev pub truth : Bool → Bool → ℕ
truth value true = 1
truth false false = 0
truth true false = 2

-- The truth that a result stands for.
abbrev pub truth_of : ℕ → ℕ
truth_of result = if result == null_bool then 1 else if result == 1 then 2 else 0

abbrev pub min : ℕ → ℕ → ℕ
min a b = if ltb b a then b else a

abbrev pub max : ℕ → ℕ → ℕ
max a b = if ltb a b then b else a

-- In the order false, null, true the operators are the connectives of three-valued logic: AND is
-- the minimum, OR the maximum, NOT turns the order around, and XOR is OR without AND.
pub operations_lem :
    (left right is_left_null is_right_null : Bool)
    → let l = truth left is_left_null in
      let r = truth right is_right_null in
      (truth_of (and_operation left right is_left_null is_right_null) ≡ min l r)
      × (truth_of (or_operation left right is_left_null is_right_null) ≡ max l r)
      × (truth_of (not_operation left is_left_null) ≡ 2 - l)
      × (truth_of (xor_operation left right is_left_null is_right_null)
          ≡ min (max l r) (2 - min l r))
unfolding and_operation or_operation xor_operation not_operation
operations_lem true true true true = (refl, refl, refl, refl)
operations_lem true true true false = (refl, refl, refl, refl)
operations_lem true true false true = (refl, refl, refl, refl)
operations_lem true true false false = (refl, refl, refl, refl)
operations_lem true false true true = (refl, refl, refl, refl)
operations_lem true false true false = (refl, refl, refl, refl)
operations_lem true false false true = (refl, refl, refl, refl)
operations_lem true false false false = (refl, refl, refl, refl)
operations_lem false true true true = (refl, refl, refl, refl)
operations_lem false true true false = (refl, refl, refl, refl)
operations_lem false true false true = (refl, refl, refl, refl)
operations_lem false true false false = (refl, refl, refl, refl)
operations_lem false false true true = (refl, refl, refl, refl)
operations_lem false false true false = (refl, refl, refl, refl)
operations_lem false false false true = (refl, refl, refl, refl)
operations_lem false false false false = (refl, refl, refl, refl)
