-- ===== src/Sema/Binary.antt =====
-- compiler/src/sema/type_checker_ops.c: the laws of the typing of binary operators.
use calynda_for_wii.Base.{true, Bool, false, arith, ◌≡◌}
use calynda_for_wii.Sema.Checked.{CheckedType}
use calynda_for_wii.Sema.Assign.{tc_checked_type_equals_comm}
use calynda_for_wii.Sema.Promotion.{tc_promote_numeric_types_comm}
use calynda_for_wii.Sema.Operators.{
  AstBinaryOperator, binary_shift_left, binary_shift_right, tc_check_binary_operator,
  check_integral, check_logical, check_arithmetic, check_add, check_equality, check_order,
  known_operand, either_external,
}

integral_comm : (left right : CheckedType) → check_integral left right ≡ check_integral right left
unfolding check_integral known_operand either_external
integral_comm left right = ground (arith, tc_promote_numeric_types_comm left right)

arithmetic_comm :
    (left right : CheckedType) → check_arithmetic left right ≡ check_arithmetic right left
unfolding check_arithmetic known_operand either_external
arithmetic_comm left right = ground (arith, tc_promote_numeric_types_comm left right)

add_comm : (left right : CheckedType) → check_add left right ≡ check_add right left
unfolding check_add
add_comm left right = ground (arith, arithmetic_comm left right)

tests_comm :
    (left right : CheckedType)
    → (check_logical left right ≡ check_logical right left)
      × (check_order left right ≡ check_order right left)
      × (check_equality left right ≡ check_equality right left)
unfolding check_logical check_order check_equality either_external
tests_comm left right =
    (ground arith, ground arith, ground (arith, tc_checked_type_equals_comm left right))

abbrev pub is_shift : AstBinaryOperator → Bool
is_shift binary_shift_left = true
is_shift binary_shift_right = true
is_shift _ = false

-- The operands of every operator but the shifts may change places: the same pairs are accepted, with
-- the same type.
pub tc_check_binary_operator_comm :
    (operator : AstBinaryOperator) (left right : CheckedType)
    → is_shift operator ≡ false
    → tc_check_binary_operator operator left right ≡ tc_check_binary_operator operator right left
unfolding tc_check_binary_operator
tc_check_binary_operator_comm operator left right h = ground (
  arith,
  integral_comm left right,
  arithmetic_comm left right,
  add_comm left right,
  tests_comm left right,
)
