-- ===== src/Sema/Lookahead.antt =====
-- compiler/src/parser/parser_lookahead.c: the scans ahead over the tokens; `parser_token_at` of
-- parser_utils.c. A scan returns its flag with the index that it leaves; `none` says that its fuel ran
-- out.
use calynda_for_wii.Sema.PrimitiveToken.{is_primitive_type_token}
use calynda_for_wii.Tokenizer.Position.{Token, message}
use calynda_for_wii.Tokenizer.TokenType.{
  tok_eof, TokenType, tok_lt, tok_gt, tok_rshift, tok_lbracket, tok_rbracket, tok_int_lit,
  tok_identifier, tok_assign, tok_internal, tok_final, tok_var, tok_void, tok_arr,
}
use calynda_for_wii.Base.{
  ℕ, zero, suc, ◌-◌, Bool, true, false, ◌&&◌, Option, none, some, List, [], ◌∷◌, length, get_or,
  ltb, if◌then◌else◌,
}

-- The fields of the parser that the scans read.
pub record Parser : Type 0 where
  pub tokens : List Token
  pub current : ℕ

-- The static token of the end of the file, whose text is empty.
abbrev pub eof_token : Token
eof_token = record { type = tok_eof; start = message []; length = 0; line = 1; column = 1 }

abbrev pub last_token : List Token → Token
last_token [] = eof_token
last_token (t ∷ []) = t
last_token (t ∷ u ∷ tokens) = last_token (u ∷ tokens)

-- The last token stands behind the end too.
abbrev pub parser_token_at : Parser → ℕ → Token
parser_token_at parser index = get_or parser.tokens index (last_token parser.tokens)

abbrev pub type_at : Parser → ℕ → TokenType
type_at parser index = (parser_token_at parser index).type

-- `type == TOK_…`
abbrev pub is_lt : TokenType → Bool
is_lt tok_lt = true
is_lt _ = false

abbrev pub is_lbracket : TokenType → Bool
is_lbracket tok_lbracket = true
is_lbracket _ = false

abbrev pub is_rbracket : TokenType → Bool
is_rbracket tok_rbracket = true
is_rbracket _ = false

abbrev pub is_int_lit : TokenType → Bool
is_int_lit tok_int_lit = true
is_int_lit _ = false

abbrev pub is_identifier : TokenType → Bool
is_identifier tok_identifier = true
is_identifier _ = false

abbrev pub is_assign : TokenType → Bool
is_assign tok_assign = true
is_assign _ = false

abbrev pub is_internal_token : TokenType → Bool
is_internal_token tok_internal = true
is_internal_token _ = false

abbrev pub is_final_token : TokenType → Bool
is_final_token tok_final = true
is_final_token _ = false

abbrev pub is_var : TokenType → Bool
is_var tok_var = true
is_var _ = false

-- The scan goes on where the one before returned true.
infixl 5 ◌⇒◌
abbrev pub ◌⇒◌ : Option (Bool × ℕ) → (ℕ → Option (Bool × ℕ)) → Option (Bool × ℕ)
none ⇒ f = none
some (false, index) ⇒ f = some (false, index)
some (true, index) ⇒ f = f index

-- The loop of `scan_generic_args_pattern`.
unfoldable pub generic_args : ℕ → Parser → ℕ → ℕ → Option (Bool × ℕ)
generic_args fuel parser zero index = some (true, index)
generic_args zero parser (suc depth) index = none
generic_args (suc fuel) parser (suc depth) index = elim (type_at parser index) [
  | tok_eof ↦ some (false, index)
  | tok_lt ↦ generic_args fuel parser (suc (suc depth)) (suc index)
  | tok_gt ↦ generic_args fuel parser depth (suc index)
  | tok_rshift ↦ elim (ltb (suc depth) 2) [
    | true ↦ some (false, index)
    | false ↦ generic_args fuel parser (suc depth - 2) (suc index)
  ]
  | _ ↦ generic_args fuel parser (suc depth) (suc index)
]

-- Each round takes a token, and the last one ends the loop.
unfoldable pub scan_generic_args_pattern : Parser → ℕ → Option (Bool × ℕ)
scan_generic_args_pattern parser index =
    generic_args (suc (length parser.tokens)) parser 1 (suc index)

-- The loop over array dimensions.
unfoldable pub dimensions : ℕ → Parser → ℕ → Option (Bool × ℕ)
dimensions zero parser index = none
dimensions (suc fuel) parser index = elim (is_lbracket (type_at parser index)) [
  | false ↦ some (true, index)
  | true ↦
      let inner = if is_int_lit (type_at parser (suc index)) then suc (suc index) else suc index in
      elim (is_rbracket (type_at parser inner)) [
        | false ↦ some (false, inner)
        | true ↦ dimensions fuel parser (suc inner)
      ]
]

-- What may stand behind the name of a type.
unfoldable pub behind_name : Parser → ℕ → Option (Bool × ℕ)
behind_name parser index =
    (if is_lt (type_at parser index)
      then scan_generic_args_pattern parser index
      else some (true, index))
    ⇒ dimensions (suc (length parser.tokens)) parser

unfoldable pub scan_type_pattern : Parser → ℕ → Option (Bool × ℕ)
scan_type_pattern parser index = elim (type_at parser index) [
  | tok_void ↦ some (true, suc index)
  | tok_arr ↦
      if is_lt (type_at parser (suc index))
      then scan_generic_args_pattern parser (suc index)
      else some (false, suc index)
  | tok_identifier ↦ behind_name parser (suc index)
  | t ↦ if is_primitive_type_token t then behind_name parser (suc index) else some (false, index)
]

-- The index behind an optional token.
abbrev pub skip_if : (TokenType → Bool) → Parser → ℕ → ℕ
skip_if test parser index = if test (type_at parser index) then suc index else index

unfoldable pub looks_like_local_binding_statement : Parser → Option (Bool × ℕ)
looks_like_local_binding_statement parser =
    let index = skip_if is_final_token parser (skip_if is_internal_token parser parser.current) in
    (if is_var (type_at parser index)
      then some (true, suc index)
      else scan_type_pattern parser index)
    ⇒ λ behind.
        some
          (is_identifier (type_at parser behind) && is_assign (type_at parser (suc behind)), behind)
