-- ===== src/Sema/Tests.antt =====
-- Types and operators at concrete types.
use calynda_for_wii.Sema.Compound.{tc_map_compound_assignment-assignable}
use calynda_for_wii.Sema.Checked.{
  tc_checked_type_is_string, tc_checked_type_is_numeric, tc_checked_type_is_scalar_value, kind_code,
  is_kind, tc_checked_type_equals, tc_checked_type_value, CheckedType,
}
use calynda_for_wii.Sema.Primitive.{
  tc_primitive_width, tc_primitive_is_signed, primitive_int64, tc_primitive_type_name,
  primitive_uint64, primitive_int32, primitive_float, primitive_code, same_primitive,
  primitive_uint16, tc_primitive_is_float, primitive_int8, tc_primitive_is_integral,
  AstPrimitiveType,
}
use calynda_for_wii.Sema.Operators.{
  check_add, check_arithmetic, tc_map_compound_assignment, assign_add, tc_check_binary_operator,
  binary_add,
}
use calynda_for_wii.Sema.Convert.{
  promote_integers, tc_checked_type_assignable, tc_merge_return_types, tc_promote_numeric_types,
}
use calynda_for_wii.Tokenizer.Position.{is_digit, is_alpha, is_alnum, Tokenizer, Token}
use calynda_for_wii.Tokenizer.Next.{tokenizer_init, tokenizer_next}
use calynda_for_wii.Tokenizer.Keywords.{is_identifier_byte}
use calynda_for_wii.Base.{false, codes, ◌⊎◌, ◌↔◌, refl, ◌≡◌, true, some}
use calynda_for_wii.Sema.Equality.{type_key, tc_checked_type_equals_iff}
use calynda_for_wii.Sema.Promotion.{
  HasRoom, tc_promote_numeric_types_comm, tc_promote_numeric_types-HasRoom,
  tc_promote_numeric_types_float,
}
use calynda_for_wii.Sema.Assign.{AcceptsBoth, void_and_external, tc_merge_return_types-AcceptsBoth}
use calynda_for_wii.Sema.Binary.{tc_check_binary_operator_comm}
use calynda_for_wii.Sema.Words.{ReadsAs, primitive_type_from_token-tokenizer_next}

abbrev int8_type : CheckedType
int8_type = tc_checked_type_value primitive_int8 0

abbrev uint16_type : CheckedType
uint16_type = tc_checked_type_value primitive_uint16 0

tc_checked_type_equals_iff_example :
    (tc_checked_type_equals int8_type uint16_type ≡ true)
    ↔ (type_key int8_type ≡ type_key uint16_type)
tc_checked_type_equals_iff_example = tc_checked_type_equals_iff int8_type uint16_type

tc_promote_numeric_types_comm_example :
    tc_promote_numeric_types int8_type uint16_type ≡ tc_promote_numeric_types uint16_type int8_type
tc_promote_numeric_types_comm_example = tc_promote_numeric_types_comm int8_type uint16_type

tc_promote_numeric_types-HasRoom_example :
    (r : AstPrimitiveType) × (tc_promote_numeric_types int8_type uint16_type
      ≡ tc_checked_type_value r 0)
    × HasRoom
        (tc_primitive_width primitive_int8)
        (tc_primitive_width primitive_uint16)
        (tc_primitive_is_signed primitive_int8)
        (tc_primitive_is_signed primitive_uint16)
        r
unfolding tc_primitive_is_integral tc_primitive_is_float same_primitive primitive_code
tc_promote_numeric_types-HasRoom_example =
    tc_promote_numeric_types-HasRoom primitive_int8 primitive_uint16 refl refl refl refl

tc_promote_numeric_types_float_example :
    (r : AstPrimitiveType) × (tc_promote_numeric_types
        (tc_checked_type_value primitive_float 0)
        int8_type
      ≡ tc_checked_type_value r 0)
    × ((r ≡ primitive_int32) ⊎ (r ≡ primitive_int64) ⊎ (r ≡ primitive_uint64))
unfolding tc_primitive_is_integral tc_primitive_is_float same_primitive primitive_code
tc_promote_numeric_types_float_example = tc_promote_numeric_types_float primitive_int8 refl refl

tc_merge_return_types-AcceptsBoth_example :
    AcceptsBoth int8_type uint16_type (tc_merge_return_types int8_type uint16_type)
    ↔ (void_and_external int8_type uint16_type ≡ false)
unfolding is_kind kind_code tc_checked_type_value
tc_merge_return_types-AcceptsBoth_example =
    tc_merge_return_types-AcceptsBoth int8_type uint16_type refl refl

tc_check_binary_operator_comm_example :
    tc_check_binary_operator binary_add int8_type uint16_type
    ≡ tc_check_binary_operator binary_add uint16_type int8_type
tc_check_binary_operator_comm_example =
    tc_check_binary_operator_comm binary_add int8_type uint16_type refl

abbrev before_name : Tokenizer
before_name = tokenizer_init (codes "uint16 x")

primitive_type_from_token-tokenizer_next_example :
    (u : Tokenizer) × (token : Token) × (tokenizer_next before_name ≡ some (u, token))
    × (u.position.bytes ≡ codes " x")
    × ReadsAs primitive_uint16 token.type
unfolding tokenizer_init tc_primitive_type_name is_identifier_byte is_alnum is_alpha is_digit
primitive_type_from_token-tokenizer_next_example =
    primitive_type_from_token-tokenizer_next before_name primitive_uint16 (codes " x") refl refl

int64_type :
    tc_check_binary_operator binary_add int8_type uint16_type
    ≡ some (tc_checked_type_value primitive_int64 0)
unfolding tc_check_binary_operator check_add check_arithmetic tc_checked_type_is_string
    tc_checked_type_is_numeric tc_checked_type_is_scalar_value tc_checked_type_value is_kind
    kind_code same_primitive primitive_code tc_primitive_is_integral tc_primitive_is_float
    tc_promote_numeric_types promote_integers tc_primitive_width tc_primitive_is_signed
int64_type = refl

tc_map_compound_assignment-assignable_example :
    tc_checked_type_assignable int8_type (tc_checked_type_value primitive_int64 0) ≡ true
unfolding tc_map_compound_assignment tc_checked_type_is_numeric tc_checked_type_is_scalar_value
    tc_checked_type_value is_kind kind_code tc_primitive_is_integral
tc_map_compound_assignment-assignable_example =
    tc_map_compound_assignment-assignable assign_add binary_add int8_type uint16_type
      (tc_checked_type_value primitive_int64 0) refl refl refl int64_type
