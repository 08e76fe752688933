-- ===== src/Sema/Levels.antt =====
-- How deep the brackets of type arguments nest along a list of tokens.
use calynda_for_wii.Sema.PrimitiveToken.{is_primitive_type_token}
use calynda_for_wii.Tokenizer.TokenType.{TokenType, tok_eof, tok_lt, tok_gt, tok_rshift, tok_comma}
use calynda_for_wii.Base.{
  ℕ, zero, suc, Bool, true, false, Option, none, some, List, [], ◌∷◌, ◌++◌, append_assoc, ◌≡◌, refl,
  ap, ◌∙◌,
}
use calynda_for_wii.Sema.TypeText.{
  Glued, name_token, type_tokens, argument_tokens, TypeTree, dimension_tokens, Arguments, TypeName,
  user_name, primitive_name, void_type, arr_type, plain_type, generic_type, only_any, only,
  any_then, type_then, nothing, one, two,
}

-- The depth behind the tokens, if it does not come to zero before the last of them.
abbrev pub level : ℕ → List TokenType → Option ℕ
level depth [] = some depth
level zero (t ∷ l) = none
level (suc depth) (t ∷ l) = elim t [
  | tok_eof ↦ none
  | tok_lt ↦ level (suc (suc depth)) l
  | tok_gt ↦ level depth l
  | tok_rshift ↦ elim depth [ zero ↦ none | suc outer ↦ level outer l ]
  | _ ↦ level (suc depth) l
]

-- A token that is no bracket.
abbrev pub is_flat : TokenType → Bool
is_flat tok_eof = false
is_flat tok_lt = false
is_flat tok_gt = false
is_flat tok_rshift = false
is_flat _ = true

flat-level :
    (t : TokenType) (depth : ℕ) (l : List TokenType)
    → is_flat t ≡ true
    → level (suc depth) (t ∷ l) ≡ level (suc depth) l
flat-level tok_eof depth l h = cc
flat-level tok_lt depth l h = cc
flat-level tok_gt depth l h = cc
flat-level tok_rshift depth l h = cc
flat-level _ depth l h = refl

primitive-is_flat : (t : TokenType) → is_primitive_type_token t ≡ true → is_flat t ≡ true
unfolding is_primitive_type_token
primitive-is_flat tok_eof h = cc
primitive-is_flat tok_lt h = cc
primitive-is_flat tok_gt h = cc
primitive-is_flat tok_rshift h = cc
primitive-is_flat _ h = refl

name-is_flat : (name : TypeName) → is_flat (name_token name) ≡ true
name-is_flat user_name = refl
name-is_flat (primitive_name t h) = primitive-is_flat t h

dimensions-level :
    (dims : List Bool) (depth : ℕ) (r : List TokenType)
    → level (suc depth) (dimension_tokens dims ++ r) ≡ level (suc depth) r
dimensions-level [] depth r = refl
dimensions-level (true ∷ dims) depth r = dimensions-level dims depth r
dimensions-level (false ∷ dims) depth r = dimensions-level dims depth r

-- A type leaves the depth as it is.
mutual
  unfolding type_tokens argument_tokens

  type-level :
      (t : TypeTree) (depth : ℕ) (r : List TokenType)
      → level (suc depth) (type_tokens t ++ r) ≡ level (suc depth) r
  type-level void_type depth r = refl
  type-level (arr_type args) depth r =
      ap (level (suc (suc depth))) (append_assoc (argument_tokens args) (tok_gt ∷ []) r)
      ∙ arguments-level args (suc depth) (tok_gt ∷ r)
  type-level (plain_type name dims) depth r =
      flat-level (name_token name) depth (dimension_tokens dims ++ r) (name-is_flat name)
      ∙ dimensions-level dims depth r
  type-level (generic_type name args dims) depth r =
      flat-level (name_token name) depth
        (tok_lt ∷ ((argument_tokens args ++ tok_gt ∷ dimension_tokens dims) ++ r))
        (name-is_flat name)
      ∙ ap (level (suc (suc depth)))
          (append_assoc (argument_tokens args) (tok_gt ∷ dimension_tokens dims) r)
      ∙ arguments-level args (suc depth) (tok_gt ∷ (dimension_tokens dims ++ r))
      ∙ dimensions-level dims depth r

  arguments-level :
      (args : Arguments) (depth : ℕ) (r : List TokenType)
      → level (suc depth) (argument_tokens args ++ r) ≡ level (suc depth) r
  arguments-level only_any depth r = refl
  arguments-level (only t) depth r = type-level t depth r
  arguments-level (any_then args) depth r = arguments-level args depth r
  arguments-level (type_then t args) depth r =
      ap (level (suc depth)) (append_assoc (type_tokens t) (tok_comma ∷ argument_tokens args) r)
      ∙ type-level t depth (tok_comma ∷ (argument_tokens args ++ r))
      ∙ arguments-level args depth r

pub closed-level : (args : Arguments) → level 1 (argument_tokens args ++ tok_gt ∷ []) ≡ some 0
closed-level args = arguments-level args 0 (tok_gt ∷ [])

-- The joined brackets close as much as the single ones.
pub Glued-level :
    (depth : ℕ) {l m : List TokenType} → Glued l m → level depth l ≡ some 0 → level depth m ≡ some 0
Glued-level depth nothing h = h
Glued-level zero (one t g) h = cc
Glued-level zero (two g) h = cc
Glued-level (suc zero) (two g) h = cc
Glued-level (suc (suc depth)) (two g) h = Glued-level depth g h
Glued-level (suc depth) (one tok_eof g) h = cc
Glued-level (suc depth) (one tok_lt g) h = Glued-level (suc (suc depth)) g h
Glued-level (suc depth) (one tok_gt g) h = Glued-level depth g h
Glued-level (suc zero) (one tok_rshift g) h = cc
Glued-level (suc (suc depth)) (one tok_rshift g) h = Glued-level depth g h
Glued-level (suc depth) (one _ g) h = Glued-level (suc depth) g h
