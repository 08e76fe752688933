-- ===== src/Sema/Convert.antt =====
-- compiler/src/sema/type_checker_convert.c: promotion, assignment and the merge of types.
use calynda_for_wii.Base.{
  true, none, false, ◌==◌, ◌||◌, ◌&&◌, some, String, ltb, not, Option, Bool, if◌then◌else◌, ℕ,
}
use calynda_for_wii.Sema.Primitive.{
  tc_primitive_is_signed, tc_primitive_width, primitive_uint64, primitive_float32,
  primitive_float64, primitive_int64, tc_unsigned_primitive_for_width, same_primitive,
  tc_primitive_is_float, tc_signed_primitive_for_width, AstPrimitiveType,
}
use calynda_for_wii.Sema.Checked.{
  tc_checked_type_is_reference_like, tc_checked_type_is_hetero_array, tc_checked_type_external,
  tc_checked_type_named, checked_external, checked_null, tc_checked_type_value,
  tc_checked_type_is_numeric, checked_void, checked_value, checked_invalid, tc_checked_type_equals,
  is_kind, tc_checked_type_void, tc_checked_type_invalid, CheckedType,
}

-- The promotion of two numbers that are not floats, by their widths and signs.
unfoldable pub promote_integers : ℕ → ℕ → Bool → Bool → AstPrimitiveType
promote_integers left_width right_width left_signed right_signed =
    let width = if ltb left_width right_width then right_width else left_width in
    if (left_signed && right_signed) || (not left_signed && not right_signed)
    then if left_signed
      then tc_signed_primitive_for_width width
      else tc_unsigned_primitive_for_width width
    else if ltb width 64
    then primitive_int64
    else if not left_signed || not right_signed
    then primitive_uint64
    else primitive_int64

unfoldable pub tc_promote_numeric_types : CheckedType → CheckedType → CheckedType
tc_promote_numeric_types left right =
    if not (tc_checked_type_is_numeric left) || not (tc_checked_type_is_numeric right)
    then tc_checked_type_invalid
    else if tc_primitive_is_float left.primitive || tc_primitive_is_float right.primitive
    then if same_primitive left.primitive primitive_float64
        || same_primitive right.primitive primitive_float64
      then tc_checked_type_value primitive_float64 0
      else tc_checked_type_value primitive_float32 0
    else tc_checked_type_value
        (promote_integers (tc_primitive_width left.primitive) (tc_primitive_width right.primitive)
          (tc_primitive_is_signed left.primitive) (tc_primitive_is_signed right.primitive))
        0

pub data ResolvedTypeKind : Type 0 where
  resolved_invalid resolved_void resolved_value resolved_named : ResolvedTypeKind

pub record ResolvedType : Type 0 where
  pub kind : ResolvedTypeKind
  pub primitive : AstPrimitiveType
  pub array_depth : ℕ
  pub name : Option String
  pub generic_arg_count : ℕ

unfoldable pub from_resolved_kind : ResolvedTypeKind → ResolvedType → CheckedType
from_resolved_kind resolved_invalid type = tc_checked_type_invalid
from_resolved_kind resolved_void type = tc_checked_type_void
from_resolved_kind resolved_value type = tc_checked_type_value type.primitive type.array_depth
from_resolved_kind resolved_named type =
    tc_checked_type_named type.name type.generic_arg_count type.array_depth

unfoldable pub tc_checked_type_from_resolved_type : ResolvedType → CheckedType
tc_checked_type_from_resolved_type type = from_resolved_kind type.kind type

-- The last two of the rules of assignment: equal depths for numbers, and `arr<?>`.
unfoldable pub assignable_value : CheckedType → CheckedType → Bool
assignable_value target source =
    if is_kind target.kind checked_value
      && is_kind source.kind checked_value
      && not (target.array_depth == source.array_depth)
    then false
    else if is_kind target.kind checked_value
        && is_kind source.kind checked_value
        && (target.array_depth == 0)
        && tc_checked_type_is_numeric target
        && tc_checked_type_is_numeric source
    then true
    else tc_checked_type_is_hetero_array target
      && ((is_kind source.kind checked_value && (source.array_depth == 1))
          || tc_checked_type_is_hetero_array source)

unfoldable pub tc_checked_type_assignable : CheckedType → CheckedType → Bool
tc_checked_type_assignable target source =
    if is_kind target.kind checked_invalid || is_kind source.kind checked_invalid
    then false
    else if tc_checked_type_equals target source
    then true
    else if is_kind target.kind checked_void
    then is_kind source.kind checked_void
      || is_kind source.kind checked_null
      || is_kind source.kind checked_external
    else if is_kind source.kind checked_void
    then false
    else if is_kind target.kind checked_external
    then not (is_kind source.kind checked_void)
    else if is_kind source.kind checked_external
    then not (is_kind target.kind checked_void)
    else if is_kind target.kind checked_value && is_kind source.kind checked_null
    then tc_checked_type_is_reference_like target
    else assignable_value target source

-- `none` where the source returns false, and the merged type otherwise.
unfoldable pub tc_merge_types_for_inference : CheckedType → CheckedType → Option CheckedType
tc_merge_types_for_inference left right =
    if tc_checked_type_equals left right
    then some left
    else if is_kind left.kind checked_external || is_kind right.kind checked_external
    then some tc_checked_type_external
    else if is_kind left.kind checked_value
        && is_kind right.kind checked_value
        && (left.array_depth == 0)
        && (right.array_depth == 0)
        && tc_checked_type_is_numeric left
        && tc_checked_type_is_numeric right
    then some (tc_promote_numeric_types left right)
    else none

unfoldable pub tc_merge_return_types : CheckedType → CheckedType → Option CheckedType
tc_merge_return_types left right =
    if (is_kind left.kind checked_void && is_kind right.kind checked_null)
      || (is_kind left.kind checked_null && is_kind right.kind checked_void)
    then some tc_checked_type_void
    else tc_merge_types_for_inference left right
