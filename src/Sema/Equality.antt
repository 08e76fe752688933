-- ===== src/Sema/Equality.antt =====
-- compiler/src/sema/type_checker_types.c: what the equality of types compares.
use calynda_for_wii.Base.{
  refl, none, some, arith, ◌||◌, ◌↔◌, true, some, ◌≡◌, String, Option, if◌then◌else◌, ℕ,
}
use text.Mathlib.TextEquality.{eq_iff}
use calynda_for_wii.Sema.Primitive.{same_primitive, primitive_code, AstPrimitiveType}
use calynda_for_wii.Sema.Checked.{
  CheckedTypeKind, kind_code, checked_type_param, checked_named, is_kind, named_equals,
  tc_checked_type_equals, CheckedType,
}

-- What a type is for the comparison: a name with its arguments and depth, a kind of named type
-- without a name, or a primitive with its depth.
pub data TypeKey : Type 0 where
  named_key : ℕ → String → ℕ → ℕ → TypeKey
  unnamed_key : ℕ → TypeKey
  plain_key : ℕ → ℕ → ℕ → TypeKey

pub name_key : ℕ → Option String → ℕ → ℕ → TypeKey
name_key k none generics depth = unnamed_key k
name_key k (some name) generics depth = named_key k name generics depth

pub type_key : CheckedType → TypeKey
type_key type =
    if is_kind type.kind checked_named || is_kind type.kind checked_type_param
    then name_key (kind_code type.kind) type.name type.generic_arg_count type.array_depth
    else plain_key (kind_code type.kind) (primitive_code type.primitive) type.array_depth

named_equals_lem :
    (k : ℕ) (x y : Option String) (g h a b : ℕ)
    → (named_equals x y g h a b ≡ true) ↔ (name_key k x g a ≡ name_key k y h b)
unfolding named_equals name_key
named_equals_lem k none none g h a b = ((λ e. refl), (λ e. refl))
named_equals_lem k none (some y) g h a b = ((λ e. cc), (λ e. cc))
named_equals_lem k (some x) none g h a b = ((λ e. cc), (λ e. cc))
named_equals_lem k (some x) (some y) g h a b = ground (arith, eq_iff x y)

is_kind_iff : (k l : CheckedTypeKind) → (is_kind k l ≡ true) ↔ (kind_code k ≡ kind_code l)
unfolding is_kind
is_kind_iff k l = (λ e. ground arith, λ e. ground arith)

is_kind_same : (k l x : CheckedTypeKind) → kind_code k ≡ kind_code l → is_kind k x ≡ is_kind l x
unfolding is_kind
is_kind_same k l x e = ground arith

same_primitive_iff :
    (p q : AstPrimitiveType) → (same_primitive p q ≡ true) ↔ (primitive_code p ≡ primitive_code q)
unfolding same_primitive
same_primitive_iff p q = (λ e. ground arith, λ e. ground arith)

-- Two types are equal for the checker just when they have the same key: the same kind, and with it
-- the name, the number of arguments and the depth of a named type or a type parameter, or the
-- primitive and the depth of any other type. So the equality is an equivalence relation.
pub tc_checked_type_equals_iff :
    (left right : CheckedType)
    → (tc_checked_type_equals left right ≡ true) ↔ (type_key left ≡ type_key right)
unfolding tc_checked_type_equals type_key name_key
tc_checked_type_equals_iff left right = ground (
  arith,
  is_kind_iff left.kind right.kind,
  is_kind_same left.kind right.kind checked_named,
  is_kind_same left.kind right.kind checked_type_param,
  same_primitive_iff left.primitive right.primitive,
  named_equals_lem (kind_code left.kind) left.name right.name left.generic_arg_count
      right.generic_arg_count left.array_depth right.array_depth,
)
