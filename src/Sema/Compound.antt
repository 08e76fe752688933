-- ===== src/Sema/Compound.antt =====
-- compiler/src/sema/type_checker_ops.c: compound assignment, by way of its binary operator.
use calynda_for_wii.Base.{false, ◌≡◌, true, some, arith}
use calynda_for_wii.Sema.Primitive.{primitive_code, same_primitive, tc_primitive_is_integral}
use calynda_for_wii.Sema.Checked.{
  checked_external, kind_code, is_kind, tc_checked_type_is_scalar_value, tc_checked_type_is_string,
  CheckedType, tc_checked_type_is_numeric,
}
use calynda_for_wii.Sema.Convert.{tc_checked_type_assignable}
use calynda_for_wii.Sema.Assign.{promote-numeric, number-assignable}
use calynda_for_wii.Sema.Operators.{
  AstBinaryOperator, either_external, AstAssignmentOperator, tc_map_compound_assignment,
  tc_check_binary_operator, check_integral, check_arithmetic, check_add, check_shift,
}

abbrev IsNumeric : CheckedType → Type 0
IsNumeric type = tc_checked_type_is_numeric type ≡ true

not_external : (type : CheckedType) → IsNumeric type → is_kind type.kind checked_external ≡ false
unfolding tc_checked_type_is_numeric tc_checked_type_is_scalar_value is_kind kind_code
not_external type h = ground arith

not_string : (type : CheckedType) → IsNumeric type → tc_checked_type_is_string type ≡ false
unfolding tc_checked_type_is_numeric tc_checked_type_is_string tc_primitive_is_integral
    same_primitive primitive_code
not_string type h = ground arith

-- What an operator on two numbers gives, where it gives something, is a number.
groups_numeric :
    (left right type : CheckedType)
    → IsNumeric left
    → IsNumeric right
    → (check_integral left right ≡ some type → IsNumeric type)
      × (check_arithmetic left right ≡ some type → IsNumeric type)
      × (check_shift left right ≡ some type → IsNumeric type)
      × (check_add left right ≡ some type → IsNumeric type)
unfolding check_integral check_arithmetic check_shift check_add either_external
groups_numeric left right type h k =
    let p = promote-numeric left right h k in
    let a = not_external left h in
    let b = not_external right k in
    let s = not_string left h in
    (λ e. ground arith, λ e. ground arith, λ e. ground arith, λ e. ground arith)

-- Where a compound assignment of a number to a number is accepted, its result can be assigned to
-- its target.
pub tc_map_compound_assignment-assignable :
    (assignment : AstAssignmentOperator) (operator : AstBinaryOperator)
    (left right type : CheckedType)
    → tc_map_compound_assignment assignment ≡ some operator
    → tc_checked_type_is_numeric left ≡ true
    → tc_checked_type_is_numeric right ≡ true
    → tc_check_binary_operator operator left right ≡ some type
    → tc_checked_type_assignable left type ≡ true
unfolding tc_map_compound_assignment tc_check_binary_operator
tc_map_compound_assignment-assignable assignment operator left right type m h k e =
    number-assignable left type h (ground (arith, groups_numeric left right type h k))
