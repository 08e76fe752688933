-- ===== src/Sema/Operators.antt =====
-- compiler/src/sema/type_checker_ops.c: the operators, and the types that they take and give.
use calynda_for_wii.Base.{◌||◌, some, ◌&&◌, none, not, if◌then◌else◌, Bool, Option}
use calynda_for_wii.Sema.Primitive.{primitive_bool, primitive_string}
use calynda_for_wii.Sema.Convert.{tc_promote_numeric_types}
use calynda_for_wii.Sema.Checked.{
  tc_checked_type_is_reference_like, tc_checked_type_external, checked_null, checked_external,
  is_kind, tc_checked_type_is_integral, tc_checked_type_is_string, tc_checked_type_equals,
  tc_checked_type_is_bool, tc_checked_type_is_numeric, tc_checked_type_value, CheckedType,
}

pub data AstBinaryOperator : Type 0 where
  binary_logical_or binary_logical_and binary_bit_or binary_bit_nand binary_bit_xor binary_bit_xnor
        binary_bit_and binary_equal binary_not_equal binary_less binary_greater binary_less_equal
        binary_greater_equal binary_shift_left binary_shift_right binary_add binary_subtract
        binary_multiply binary_divide binary_modulo :
      AstBinaryOperator

pub data AstAssignmentOperator : Type 0 where
  assign assign_add assign_subtract assign_multiply assign_divide assign_modulo assign_bit_and
        assign_bit_or assign_bit_xor assign_shift_left assign_shift_right :
      AstAssignmentOperator

unfoldable pub either_external : CheckedType → CheckedType → Bool
either_external left right =
    is_kind left.kind checked_external || is_kind right.kind checked_external

-- The type of an operand that is not external, the left one first.
unfoldable pub known_operand : CheckedType → CheckedType → CheckedType
known_operand left right =
    if not (is_kind left.kind checked_external)
    then left
    else if not (is_kind right.kind checked_external)
    then right
    else tc_checked_type_external

abbrev pub bool_type : CheckedType
bool_type = tc_checked_type_value primitive_bool 0

-- The groups of cases of the switch, each with its tests in order.
unfoldable pub check_logical : CheckedType → CheckedType → Option CheckedType
check_logical left right =
    if tc_checked_type_is_bool left && tc_checked_type_is_bool right
    then some bool_type
    else if either_external left right
    then some bool_type
    else none

unfoldable pub check_integral : CheckedType → CheckedType → Option CheckedType
check_integral left right =
    if tc_checked_type_is_integral left && tc_checked_type_is_integral right
    then some (tc_promote_numeric_types left right)
    else if either_external left right
    then some (known_operand left right)
    else none

unfoldable pub check_equality : CheckedType → CheckedType → Option CheckedType
check_equality left right =
    if tc_checked_type_equals left right
      || (tc_checked_type_is_numeric left && tc_checked_type_is_numeric right)
      || ((is_kind left.kind checked_null && tc_checked_type_is_reference_like right)
          || (is_kind right.kind checked_null && tc_checked_type_is_reference_like left))
      || either_external left right
    then some bool_type
    else none

unfoldable pub check_order : CheckedType → CheckedType → Option CheckedType
check_order left right =
    if tc_checked_type_is_numeric left && tc_checked_type_is_numeric right
    then some bool_type
    else if either_external left right
    then some bool_type
    else none

unfoldable pub check_shift : CheckedType → CheckedType → Option CheckedType
check_shift left right =
    if tc_checked_type_is_integral left && tc_checked_type_is_integral right
    then some left
    else if either_external left right
    then some (known_operand left right)
    else none

unfoldable pub check_arithmetic : CheckedType → CheckedType → Option CheckedType
check_arithmetic left right =
    if tc_checked_type_is_numeric left && tc_checked_type_is_numeric right
    then some (tc_promote_numeric_types left right)
    else if either_external left right
    then some (known_operand left right)
    else none

unfoldable pub check_add : CheckedType → CheckedType → Option CheckedType
check_add left right =
    if tc_checked_type_is_string left && tc_checked_type_is_string right
    then some (tc_checked_type_value primitive_string 0)
    else check_arithmetic left right

-- `none` where the source reports an error and returns false, and the result type otherwise.
unfoldable pub tc_check_binary_operator :
    AstBinaryOperator → CheckedType → CheckedType → Option CheckedType
tc_check_binary_operator binary_logical_or left right = check_logical left right
tc_check_binary_operator binary_logical_and left right = check_logical left right
tc_check_binary_operator binary_bit_or left right = check_integral left right
tc_check_binary_operator binary_bit_nand left right = check_integral left right
tc_check_binary_operator binary_bit_xor left right = check_integral left right
tc_check_binary_operator binary_bit_xnor left right = check_integral left right
tc_check_binary_operator binary_bit_and left right = check_integral left right
tc_check_binary_operator binary_equal left right = check_equality left right
tc_check_binary_operator binary_not_equal left right = check_equality left right
tc_check_binary_operator binary_less left right = check_order left right
tc_check_binary_operator binary_greater left right = check_order left right
tc_check_binary_operator binary_less_equal left right = check_order left right
tc_check_binary_operator binary_greater_equal left right = check_order left right
tc_check_binary_operator binary_shift_left left right = check_shift left right
tc_check_binary_operator binary_shift_right left right = check_shift left right
tc_check_binary_operator binary_add left right = check_add left right
tc_check_binary_operator binary_subtract left right = check_arithmetic left right
tc_check_binary_operator binary_multiply left right = check_arithmetic left right
tc_check_binary_operator binary_divide left right = check_arithmetic left right
tc_check_binary_operator binary_modulo left right = check_integral left right

unfoldable pub tc_map_compound_assignment : AstAssignmentOperator → Option AstBinaryOperator
tc_map_compound_assignment assign = none
tc_map_compound_assignment assign_add = some binary_add
tc_map_compound_assignment assign_subtract = some binary_subtract
tc_map_compound_assignment assign_multiply = some binary_multiply
tc_map_compound_assignment assign_divide = some binary_divide
tc_map_compound_assignment assign_modulo = some binary_modulo
tc_map_compound_assignment assign_bit_and = some binary_bit_and
tc_map_compound_assignment assign_bit_or = some binary_bit_or
tc_map_compound_assignment assign_bit_xor = some binary_bit_xor
tc_map_compound_assignment assign_shift_left = some binary_shift_left
tc_map_compound_assignment assign_shift_right = some binary_shift_right
