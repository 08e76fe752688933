-- ===== src/Sema/Promotion.antt =====
-- compiler/src/sema/type_checker_convert.c: the numbers that a promotion keeps.
use calynda_for_wii.Base.{
  refl, ◌≤◌, Bool, ◌≢◌, ◌-◌, false, ◌⊎◌, ◌^◌, true, arith, ◌≡◌, if◌then◌else◌, ℕ,
}
use calynda_for_wii.Sema.Primitive.{
  primitive_int64, primitive_int32, primitive_code, same_primitive, tc_unsigned_primitive_for_width,
  primitive_uint64, tc_signed_primitive_for_width, primitive_float, tc_primitive_is_float,
  tc_primitive_is_signed, tc_primitive_width, tc_primitive_is_integral, AstPrimitiveType,
}
use calynda_for_wii.Sema.Checked.{
  kind_code, is_kind, tc_checked_type_is_scalar_value, tc_checked_type_is_numeric,
  tc_checked_type_value, CheckedType,
}
use calynda_for_wii.Sema.Convert.{tc_promote_numeric_types, promote_integers}

-- The order of the operands of a promotion does not matter.
pub tc_promote_numeric_types_comm :
    (left right : CheckedType)
    → tc_promote_numeric_types left right ≡ tc_promote_numeric_types right left
unfolding tc_promote_numeric_types promote_integers
tc_promote_numeric_types_comm left right = ground arith

-- The largest number of an integer type, and the size of its most negative one.
abbrev pub upper : ℕ → Bool → ℕ
upper width signed = if signed then 2 ^ (width - 1) - 1 else 2 ^ width - 1

abbrev pub lower : ℕ → Bool → ℕ
lower width signed = if signed then 2 ^ (width - 1) else 0

abbrev IsWidth : ℕ → Type 0
IsWidth w = (w ≡ 8) ⊎ (w ≡ 16) ⊎ (w ≡ 32) ⊎ (w ≡ 64)

widths : (p : AstPrimitiveType) → tc_primitive_is_integral p ≡ true → IsWidth (tc_primitive_width p)
unfolding tc_primitive_is_integral tc_primitive_width
widths p h = ground arith

-- The type `r` has room for the integers of two types with these widths and signs, unless a signed
-- and an unsigned type meet, one of them of 64 bits: then `r` is `uint64`, without negative numbers.
pub record HasRoom (v w : ℕ) (a b : Bool) (r : AstPrimitiveType) : Type 0 where
  pub left_upper : upper v a ≤ upper (tc_primitive_width r) (tc_primitive_is_signed r)
  pub right_upper : upper w b ≤ upper (tc_primitive_width r) (tc_primitive_is_signed r)
  pub lower_or_wide :
      ((lower v a ≤ lower (tc_primitive_width r) (tc_primitive_is_signed r))
        × (lower w b ≤ lower (tc_primitive_width r) (tc_primitive_is_signed r)))
      ⊎ ((r ≡ primitive_uint64) × (a ≢ b) × ((v ≡ 64) ⊎ (w ≡ 64)))

promote_integers-HasRoom :
    (v w : ℕ) (a b : Bool) → IsWidth v → IsWidth w → HasRoom v w a b (promote_integers v w a b)
unfolding promote_integers tc_primitive_width tc_primitive_is_signed tc_signed_primitive_for_width
    tc_unsigned_primitive_for_width
promote_integers-HasRoom v w a b h k = record {
  left_upper = ground arith;
  right_upper = ground arith;
  lower_or_wide = ground arith;
}

promote_values :
    (p q : AstPrimitiveType)
    → tc_primitive_is_integral p ≡ true
    → tc_primitive_is_integral q ≡ true
    → tc_primitive_is_float p ≡ false
    → tc_primitive_is_float q ≡ false
    → tc_promote_numeric_types (tc_checked_type_value p 0) (tc_checked_type_value q 0)
      ≡ tc_checked_type_value
          (promote_integers
            (tc_primitive_width p)
            (tc_primitive_width q)
            (tc_primitive_is_signed p)
            (tc_primitive_is_signed q))
          0
unfolding is_kind kind_code tc_promote_numeric_types tc_checked_type_value
    tc_checked_type_is_numeric tc_checked_type_is_scalar_value
promote_values p q h k f g = ground arith

-- Two scalars of number types, neither of them a float type for `tc_primitive_is_float`, are promoted
-- to a scalar of a type whose width and sign have room for the integers of both widths and signs,
-- except that the result is `uint64`, without room for negative numbers, where a signed and an
-- unsigned type meet and one of them has 64 bits.
pub tc_promote_numeric_types-HasRoom :
    (p q : AstPrimitiveType)
    → tc_primitive_is_integral p ≡ true
    → tc_primitive_is_integral q ≡ true
    → tc_primitive_is_float p ≡ false
    → tc_primitive_is_float q ≡ false
    → (r : AstPrimitiveType) × (tc_promote_numeric_types
          (tc_checked_type_value p 0)
          (tc_checked_type_value q 0)
        ≡ tc_checked_type_value r 0)
      × HasRoom
          (tc_primitive_width p)
          (tc_primitive_width q)
          (tc_primitive_is_signed p)
          (tc_primitive_is_signed q)
          r
tc_promote_numeric_types-HasRoom p q h k f g =
    (_, promote_values p q h k f g, promote_integers-HasRoom _ _ _ _ (widths p h) (widths q k))

promote_float :
    (w : ℕ) (b : Bool)
    → IsWidth w
    → (promote_integers 32 w true b ≡ primitive_int32)
      ⊎ (promote_integers 32 w true b ≡ primitive_int64)
      ⊎ (promote_integers 32 w true b ≡ primitive_uint64)
unfolding promote_integers tc_signed_primitive_for_width
promote_float w b h = ground arith

-- The alias `float` is not a float type for a promotion: together with any number type but `float32`
-- and `float64` it is promoted to an integer type.
pub tc_promote_numeric_types_float :
    (q : AstPrimitiveType)
    → tc_primitive_is_integral q ≡ true
    → tc_primitive_is_float q ≡ false
    → (r : AstPrimitiveType) × (tc_promote_numeric_types
          (tc_checked_type_value primitive_float 0)
          (tc_checked_type_value q 0)
        ≡ tc_checked_type_value r 0)
      × ((r ≡ primitive_int32) ⊎ (r ≡ primitive_int64) ⊎ (r ≡ primitive_uint64))
unfolding tc_primitive_is_integral tc_primitive_is_float tc_primitive_width tc_primitive_is_signed
    same_primitive primitive_code
tc_promote_numeric_types_float q h f = (
  promote_integers 32 (tc_primitive_width q) true (tc_primitive_is_signed q),
  promote_values primitive_float q refl h refl f,
  promote_float (tc_primitive_width q) (tc_primitive_is_signed q) (widths q h),
)
