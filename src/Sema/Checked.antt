-- ===== src/Sema/Checked.antt =====
-- compiler/src/sema/type_checker.h, type_resolution.h and type_checker_types.c: the types that the
-- checker gives to expressions.
use calynda_for_wii.Base.{
  some, ◌||◌, ltb, false, not, true, leb, ◌==◌, ◌&&◌, String, if◌then◌else◌, none, Option, Bool, ℕ,
}
use calynda_for_wii.Sema.Primitive.{
  tc_primitive_is_float, primitive_bool, primitive_string, tc_primitive_is_integral, same_primitive,
  primitive_int8, AstPrimitiveType,
}
use text.Mathlib.Text.{◌==◌ as str_eq}

pub data CheckedTypeKind : Type 0 where
  checked_invalid checked_void checked_null checked_value checked_external checked_named
        checked_type_param :
      CheckedTypeKind

unfoldable pub kind_code : CheckedTypeKind → ℕ
kind_code checked_invalid = 0
kind_code checked_void = 1
kind_code checked_null = 2
kind_code checked_value = 3
kind_code checked_external = 4
kind_code checked_named = 5
kind_code checked_type_param = 6

unfoldable pub is_kind : CheckedTypeKind → CheckedTypeKind → Bool
is_kind k l = kind_code k == kind_code l

-- The name is a pointer in C, and may be NULL.
pub record CheckedType : Type 0 where
  pub kind : CheckedTypeKind
  pub primitive : AstPrimitiveType
  pub array_depth : ℕ
  pub name : Option String
  pub generic_arg_count : ℕ

unfoldable pub tc_checked_type_invalid : CheckedType
tc_checked_type_invalid = record {
  kind = checked_invalid;
  primitive = primitive_int8;
  array_depth = 0;
  name = none;
  generic_arg_count = 0;
}

unfoldable pub tc_checked_type_void : CheckedType
tc_checked_type_void = record tc_checked_type_invalid { kind = checked_void }

unfoldable pub tc_checked_type_null : CheckedType
tc_checked_type_null = record tc_checked_type_invalid { kind = checked_null }

unfoldable pub tc_checked_type_external : CheckedType
tc_checked_type_external = record tc_checked_type_invalid { kind = checked_external }

unfoldable pub tc_checked_type_value : AstPrimitiveType → ℕ → CheckedType
tc_checked_type_value primitive array_depth = record tc_checked_type_invalid {
  kind = checked_value;
  primitive = primitive;
  array_depth = array_depth;
}

unfoldable pub tc_checked_type_named : Option String → ℕ → ℕ → CheckedType
tc_checked_type_named name generic_arg_count array_depth = record tc_checked_type_invalid {
  kind = checked_named;
  name = name;
  generic_arg_count = generic_arg_count;
  array_depth = array_depth;
}

unfoldable pub tc_checked_type_type_param : Option String → CheckedType
tc_checked_type_type_param name = record tc_checked_type_invalid {
  kind = checked_type_param;
  name = name;
}

-- Whether the name is there, and this text.
unfoldable pub name_is : Option String → String → Bool
name_is none text = false
name_is (some name) text = str_eq name text

unfoldable pub tc_checked_type_is_hetero_array : CheckedType → Bool
tc_checked_type_is_hetero_array type =
    is_kind type.kind checked_named
    && name_is type.name "arr"
    && leb 1 type.generic_arg_count
    && (type.array_depth == 0)

-- The comparison of two named types, or of two type parameters: with a NULL among the names, the
-- pointers are compared and nothing else.
unfoldable pub named_equals : Option String → Option String → ℕ → ℕ → ℕ → ℕ → Bool
named_equals none none g h a b = true
named_equals none (some y) g h a b = false
named_equals (some x) none g h a b = false
named_equals (some x) (some y) g h a b = str_eq x y && (g == h) && (a == b)

unfoldable pub tc_checked_type_equals : CheckedType → CheckedType → Bool
tc_checked_type_equals left right =
    if not (is_kind left.kind right.kind)
    then false
    else if is_kind left.kind checked_named || is_kind left.kind checked_type_param
    then named_equals left.name right.name left.generic_arg_count right.generic_arg_count
        left.array_depth right.array_depth
    else same_primitive left.primitive right.primitive && (left.array_depth == right.array_depth)

unfoldable pub tc_checked_type_is_scalar_value : CheckedType → Bool
tc_checked_type_is_scalar_value type = is_kind type.kind checked_value && (type.array_depth == 0)

unfoldable pub tc_checked_type_is_bool : CheckedType → Bool
tc_checked_type_is_bool type =
    tc_checked_type_is_scalar_value type && same_primitive type.primitive primitive_bool

unfoldable pub tc_checked_type_is_string : CheckedType → Bool
tc_checked_type_is_string type =
    tc_checked_type_is_scalar_value type && same_primitive type.primitive primitive_string

unfoldable pub tc_checked_type_is_numeric : CheckedType → Bool
tc_checked_type_is_numeric type =
    tc_checked_type_is_scalar_value type && tc_primitive_is_integral type.primitive

unfoldable pub tc_checked_type_is_integral : CheckedType → Bool
tc_checked_type_is_integral type =
    tc_checked_type_is_scalar_value type
    && tc_primitive_is_integral type.primitive
    && not (tc_primitive_is_float type.primitive)

unfoldable pub tc_checked_type_is_reference_like : CheckedType → Bool
tc_checked_type_is_reference_like type =
    (is_kind type.kind checked_value
      && (ltb 0 type.array_depth || same_primitive type.primitive primitive_string))
    || is_kind type.kind checked_external
