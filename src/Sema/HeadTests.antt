-- ===== src/Sema/HeadTests.antt =====
-- The head of a local binding, and the theorem at it.
use calynda_for_wii.Sema.Bindings.{
  IsBindingType, looks_like_local_binding_statement-Reads, binding_head, in_order,
}
use calynda_for_wii.Sema.PrimitiveToken.{is_primitive_type_token}
use calynda_for_wii.Sema.Lookahead.{Parser, looks_like_local_binding_statement}
use calynda_for_wii.Tokenizer.TokenType.{
  TokenType, tok_internal, tok_final, tok_identifier, tok_lt, tok_int32, tok_comma, tok_question,
  tok_rshift, tok_lbracket, tok_rbracket, tok_assign, tok_int_lit, tok_eof,
}
use calynda_for_wii.Tokenizer.Position.{Token, message}
use calynda_for_wii.Sema.TypeText.{
  argument_tokens, type_tokens, user_name, primitive_name, plain_type, generic_type, only_any, only,
  type_then, one, two, nothing, written_generic,
}
use calynda_for_wii.Base.{
  ℕ, suc, ◌+◌, true, false, some, List, [], ◌∷◌, ◌++◌, length, map, ◌≡◌, inr, refl, arith,
}

abbrev token : TokenType → Token
token t = record { type = t; start = message []; length = 1; line = 1; column = 1 }

-- `Map<int32, List<?>>[]`
abbrev type_text : List TokenType
type_text =
    tok_identifier ∷ tok_lt ∷ tok_int32 ∷ tok_comma ∷ tok_identifier ∷ tok_lt ∷ tok_question
    ∷ tok_rshift ∷ tok_lbracket ∷ tok_rbracket ∷ []

-- `internal final Map<int32, List<?>>[] m = 1`
abbrev text : Parser
text = record {
  tokens = map token (
      tok_internal
      ∷ tok_final
      ∷ (type_text ++ tok_identifier ∷ tok_assign ∷ tok_int_lit ∷ tok_eof ∷ []));
  current = 0;
}

type_text-IsBindingType : IsBindingType type_text
unfolding is_primitive_type_token type_tokens argument_tokens
type_text-IsBindingType = inr (
  generic_type user_name
      (type_then (plain_type (primitive_name tok_int32 refl) [])
        (only (generic_type user_name only_any [])))
      (false ∷ []),
  written_generic (
      one tok_int32
        (one tok_comma (one tok_identifier (one tok_lt (one tok_question (two nothing)))))),
)

looks_like_local_binding_statement-Reads_example :
    (behind : ℕ) × (looks_like_local_binding_statement text ≡ some (true, behind))
    × (suc (suc behind)
        ≡ 0 + length (binding_head (in_order true true) type_text tok_identifier tok_assign))
looks_like_local_binding_statement-Reads_example =
    looks_like_local_binding_statement-Reads text (in_order true true) type_text tok_identifier
      tok_assign refl refl type_text-IsBindingType
      (
        refl,
        omega arith,
        (
          refl,
          omega arith,
          (
            refl,
            omega arith,
            (
              refl,
              omega arith,
              (
                refl,
                omega arith,
                (
                  refl,
                  omega arith,
                  (
                    refl,
                    omega arith,
                    (
                      refl,
                      omega arith,
                      (
                        refl,
                        omega arith,
                        (
                          refl,
                          omega arith,
                          (
                            refl,
                            omega arith,
                            (refl, omega arith, (refl, omega arith, (refl, omega arith, tt))),
                          ),
                        ),
                      ),
                    ),
                  ),
                ),
              ),
            ),
          ),
        ),
      )
