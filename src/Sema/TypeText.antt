-- ===== src/Sema/TypeText.antt =====
-- The types that parser_parse_type and parser_parse_generic_args (compiler/src/parser/parser_types.c)
-- read, as the tokens that write them. The grammar file compiler/calynda_fork.ebnf differs: it has no
-- 64-bit types, gives `arr` at most two arguments, writes a wildcard as `*` and not `?`, and has array
-- dimensions behind `arr<...>` and types with qualified names.
use calynda_for_wii.Sema.PrimitiveToken.{is_primitive_type_token}
use calynda_for_wii.Tokenizer.TokenType.{
  TokenType, tok_identifier, tok_void, tok_arr, tok_lt, tok_gt, tok_rshift, tok_comma, tok_question,
  tok_lbracket, tok_rbracket, tok_int_lit,
}
use calynda_for_wii.Base.{Bool, true, false, List, [], ◌∷◌, ◌++◌, ◌≡◌}

-- The first token of a type that may have arguments and dimensions.
pub data TypeName : Type 0 where
  user_name : TypeName
  primitive_name : (t : TokenType) → is_primitive_type_token t ≡ true → TypeName

abbrev pub name_token : TypeName → TokenType
name_token user_name = tok_identifier
name_token (primitive_name t h) = t

-- A dimension has a size or has none.
abbrev pub dimension_tokens : List Bool → List TokenType
dimension_tokens [] = []
dimension_tokens (true ∷ dims) = tok_lbracket ∷ tok_int_lit ∷ tok_rbracket ∷ dimension_tokens dims
dimension_tokens (false ∷ dims) = tok_lbracket ∷ tok_rbracket ∷ dimension_tokens dims

-- Types, and their lists of arguments, which are not empty; `any` is a wildcard.
mutual
  pub data TypeTree : Type 0 where
    void_type : TypeTree
    arr_type : Arguments → TypeTree
    plain_type : TypeName → List Bool → TypeTree
    generic_type : TypeName → Arguments → List Bool → TypeTree

  pub data Arguments : Type 0 where
    only_any : Arguments
    only : TypeTree → Arguments
    any_then : Arguments → Arguments
    type_then : TypeTree → Arguments → Arguments

unfoldable mutual
  -- The tokens of a type, with a token for each closing bracket.
  pub type_tokens : TypeTree → List TokenType
  type_tokens void_type = tok_void ∷ []
  type_tokens (arr_type args) = tok_arr ∷ tok_lt ∷ (argument_tokens args ++ tok_gt ∷ [])
  type_tokens (plain_type name dims) = name_token name ∷ dimension_tokens dims
  type_tokens (generic_type name args dims) =
      name_token name ∷ tok_lt ∷ (argument_tokens args ++ tok_gt ∷ dimension_tokens dims)

  pub argument_tokens : Arguments → List TokenType
  argument_tokens only_any = tok_question ∷ []
  argument_tokens (only t) = type_tokens t
  argument_tokens (any_then args) = tok_question ∷ tok_comma ∷ argument_tokens args
  argument_tokens (type_then t args) = type_tokens t ++ tok_comma ∷ argument_tokens args

-- The lexer may read two closing brackets as one token.
pub data Glued : List TokenType → List TokenType → Type 0 where
  nothing : Glued [] []
  one : {l m : List TokenType} (t : TokenType) → Glued l m → Glued (t ∷ l) (t ∷ m)
  two : {l m : List TokenType} → Glued l m → Glued (tok_gt ∷ tok_gt ∷ l) (tok_rshift ∷ m)

-- The tokens of a type in a text.
pub data Written : TypeTree → List TokenType → Type 0 where
  written_void : Written void_type (tok_void ∷ [])
  written_arr :
      {args : Arguments} {l : List TokenType}
      → Glued (argument_tokens args ++ tok_gt ∷ []) l
      → Written (arr_type args) (tok_arr ∷ tok_lt ∷ l)
  written_plain :
      {name : TypeName} {dims : List Bool}
      → Written (plain_type name dims) (name_token name ∷ dimension_tokens dims)
  written_generic :
      {name : TypeName} {args : Arguments} {dims : List Bool} {l : List TokenType}
      → Glued (argument_tokens args ++ tok_gt ∷ []) l
      → Written
          (generic_type name args dims)
          (name_token name ∷ tok_lt ∷ (l ++ dimension_tokens dims))
