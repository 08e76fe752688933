-- ===== src/Sema/Assign.antt =====
-- compiler/src/sema/type_checker_convert.c: assignment to merged types.
use calynda_for_wii.Sema.Checked.{
  checked_named, checked_type_param, checked_null, checked_external, checked_value, CheckedTypeKind,
  tc_checked_type_external, tc_checked_type_void, checked_void, kind_code, tc_checked_type_value,
  checked_invalid, tc_checked_type_is_scalar_value, is_kind, tc_checked_type_equals,
  tc_checked_type_is_numeric, CheckedType,
}
use calynda_for_wii.Base.{
  inr, inl, Bool-cases, ◌↔◌, ◌||◌, ◌&&◌, arith, Bool, sym, true, false, Option, ℕ, refl, ◌≡◌, some,
  none,
}
use calynda_for_wii.Sema.Primitive.{
  tc_primitive_is_signed, tc_primitive_width, primitive_float32, primitive_float64,
  tc_unsigned_primitive_for_width, tc_signed_primitive_for_width, tc_primitive_is_integral,
  AstPrimitiveType,
}
use calynda_for_wii.Sema.Equality.{tc_checked_type_equals_iff}
use calynda_for_wii.Sema.Convert.{
  assignable_value, promote_integers, tc_promote_numeric_types, tc_merge_types_for_inference,
  tc_merge_return_types, tc_checked_type_assignable,
}

same_truth : (a b : Bool) → (a ≡ true → b ≡ true) → (b ≡ true → a ≡ true) → a ≡ b
same_truth true b f g = sym (f refl)
same_truth false true f g = g refl
same_truth false false f g = refl

pub tc_checked_type_equals_comm :
    (left right : CheckedType)
    → tc_checked_type_equals left right ≡ tc_checked_type_equals right left
tc_checked_type_equals_comm left right =
    let (there, back) = tc_checked_type_equals_iff left right in
    let (there', back') = tc_checked_type_equals_iff right left in
    same_truth _ _ (λ e. back' (sym (there e))) (λ e. back (sym (there' e)))

pub tc_checked_type_equals_refl : (type : CheckedType) → tc_checked_type_equals type type ≡ true
tc_checked_type_equals_refl type = (tc_checked_type_equals_iff type type).1 refl

value-numeric :
    (p : AstPrimitiveType)
    → tc_primitive_is_integral p ≡ true
    → tc_checked_type_is_numeric (tc_checked_type_value p 0) ≡ true
unfolding tc_checked_type_is_numeric tc_checked_type_is_scalar_value tc_checked_type_value is_kind
    kind_code
value-numeric p h = h

promote_integers-integral :
    (v w : ℕ) (a b : Bool) → tc_primitive_is_integral (promote_integers v w a b) ≡ true
unfolding promote_integers tc_primitive_is_integral tc_signed_primitive_for_width
    tc_unsigned_primitive_for_width
promote_integers-integral v w a b = ground arith

-- The promotion of two numbers is a number.
pub promote-numeric :
    (left right : CheckedType)
    → tc_checked_type_is_numeric left ≡ true
    → tc_checked_type_is_numeric right ≡ true
    → tc_checked_type_is_numeric (tc_promote_numeric_types left right) ≡ true
unfolding tc_promote_numeric_types tc_primitive_is_integral
promote-numeric left right h k = ground (
  arith,
  h,
  k,
  value-numeric primitive_float64 refl,
  value-numeric primitive_float32 refl,
  value-numeric
      (promote_integers (tc_primitive_width left.primitive) (tc_primitive_width right.primitive)
        (tc_primitive_is_signed left.primitive) (tc_primitive_is_signed right.primitive))
      (promote_integers-integral _ _ _ _),
)

abbrev pub AcceptsBoth : CheckedType → CheckedType → Option CheckedType → Type 0
AcceptsBoth left right none = Unit
AcceptsBoth left right (some merged) =
    (tc_checked_type_assignable merged left ≡ true)
    × (tc_checked_type_assignable merged right ≡ true)

only_value :
    (k : CheckedTypeKind)
    → is_kind k checked_value ≡ true
    → (is_kind k checked_invalid ≡ false)
      × (is_kind k checked_void ≡ false)
      × (is_kind k checked_null ≡ false)
      × (is_kind k checked_external ≡ false)
unfolding is_kind kind_code
only_value checked_value h = (refl, refl, refl, refl)
only_value checked_invalid h = cc
only_value checked_void h = cc
only_value checked_null h = cc
only_value checked_external h = cc
only_value checked_named h = cc
only_value checked_type_param h = cc

external_only :
    (k : CheckedTypeKind) → is_kind k checked_external ≡ true → is_kind k checked_void ≡ false
unfolding is_kind kind_code
external_only k h = ground arith

pub number-assignable :
    (target source : CheckedType)
    → tc_checked_type_is_numeric target ≡ true
    → tc_checked_type_is_numeric source ≡ true
    → tc_checked_type_assignable target source ≡ true
unfolding tc_checked_type_assignable assignable_value tc_checked_type_is_numeric
    tc_checked_type_is_scalar_value
number-assignable target source h k =
    ground (arith, h, k, only_value target.kind, only_value source.kind)

equal-assignable :
    (target source : CheckedType)
    → tc_checked_type_equals target source ≡ true
    → is_kind target.kind checked_invalid ≡ false
    → is_kind source.kind checked_invalid ≡ false
    → tc_checked_type_assignable target source ≡ true
unfolding tc_checked_type_assignable
equal-assignable target source e h k = ground arith

external-assignable :
    (source : CheckedType)
    → is_kind source.kind checked_invalid ≡ false
    → is_kind source.kind checked_void ≡ false
    → tc_checked_type_assignable tc_checked_type_external source ≡ true
unfolding tc_checked_type_assignable tc_checked_type_external is_kind kind_code
external-assignable source h k = ground (arith, h, k)

void-assignable :
    (source : CheckedType)
    → (is_kind source.kind checked_void || is_kind source.kind checked_null) ≡ true
    → is_kind source.kind checked_invalid ≡ false
    → tc_checked_type_assignable tc_checked_type_void source ≡ true
unfolding tc_checked_type_assignable tc_checked_type_void is_kind kind_code
void-assignable source h k = ground (arith, h, k)

-- Whether `void` meets an external type.
abbrev pub void_and_external : CheckedType → CheckedType → Bool
void_and_external left right =
    (is_kind left.kind checked_void && is_kind right.kind checked_external)
    || (is_kind left.kind checked_external && is_kind right.kind checked_void)

merge-AcceptsBoth :
    (left right : CheckedType)
    → is_kind left.kind checked_invalid ≡ false
    → is_kind right.kind checked_invalid ≡ false
    → void_and_external left right ≡ false
    → AcceptsBoth left right (tc_merge_return_types left right)
unfolding tc_merge_return_types tc_merge_types_for_inference
merge-AcceptsBoth left right h k v = ground (
  arith,
  h,
  k,
  v,
  equal-assignable left left (tc_checked_type_equals_refl left),
  equal-assignable left right,
  external-assignable left,
  external-assignable right,
  void-assignable left,
  void-assignable right,
  external_only left.kind,
  external_only right.kind,
  number-assignable (tc_promote_numeric_types left right) left,
  number-assignable (tc_promote_numeric_types left right) right,
  promote-numeric left right,
)

void_to_external :
    (left right : CheckedType)
    → void_and_external left right ≡ true
    → AcceptsBoth left right (tc_merge_return_types left right)
    → ⊥
unfolding tc_merge_return_types tc_merge_types_for_inference tc_checked_type_assignable
    tc_checked_type_external tc_checked_type_equals is_kind kind_code
void_to_external left right v h = ground (arith, v, h)

-- Take two types as the types of `return` statements, neither of them the invalid type. Whatever they
-- are merged to, a value of either of them can be assigned to it, and this fails just where `void`
-- meets an external type: they are merged to an external type, to which `void` cannot be assigned.
pub tc_merge_return_types-AcceptsBoth :
    (left right : CheckedType)
    → is_kind left.kind checked_invalid ≡ false
    → is_kind right.kind checked_invalid ≡ false
    → AcceptsBoth left right (tc_merge_return_types left right)
      ↔ (void_and_external left right ≡ false)
tc_merge_return_types-AcceptsBoth left right h k = (
  λ both. elim (Bool-cases (void_and_external left right)) [
    | inl v ↦ absurd (void_to_external left right v both)
    | inr v ↦ v
  ],
  λ v. merge-AcceptsBoth left right h k v,
)
