-- ===== src/Sema/Words.antt =====
-- The names of the primitive types, from their text to their type.
use calynda_for_wii.Tokenizer.Next.{tokenizer_next}
use calynda_for_wii.Tokenizer.TokenType.{tok_identifier, TokenType}
use calynda_for_wii.Sema.Primitive.{
  tc_primitive_width, primitive_int64, primitive_uint64, primitive_float64, primitive_long,
  primitive_ulong, primitive_double,
}
use calynda_for_wii.Base.{
  ◌⊎◌, inl, ap, ◌∙◌, ◌<◌, inr, some, ◌&&◌, arith, Bool, false, tail, refl, true, ◌≡◌, All, true,
  ◌==◌, ◌||◌, ◌≡◌, codes, Bytes, [], ◌∷◌, ◌++◌,
}
use calynda_for_wii.Tokenizer.Words.{word_type, word_type_in, tokenizer_next_word}
use calynda_for_wii.Tokenizer.Position.{
  first_byte, is_digit, is_alnum, Token, Tokenizer, is_alpha, make_token,
}
use calynda_for_wii.Tokenizer.Keywords.{is_identifier_byte}
use calynda_for_wii.Sema.Primitive.{AstPrimitiveType, primitive_int8, tc_primitive_type_name}
use calynda_for_wii.Sema.PrimitiveToken.{is_primitive_type_token, primitive_type_from_token}

abbrev all_identifier : Bytes → Bool
all_identifier [] = true
all_identifier (c ∷ cs) = is_identifier_byte c && all_identifier cs

all_identifier-All :
    (cs : Bytes) → all_identifier cs ≡ true → All (λ d. is_identifier_byte d ≡ true) cs
all_identifier-All [] h = tt
all_identifier-All (c ∷ cs) h = (ground arith, all_identifier-All cs (ground arith))

abbrev name_bytes : AstPrimitiveType → Bytes
name_bytes p = codes (tc_primitive_type_name p)

-- What the front end makes of a token for a type: the type, where it has less than 64 bits, and an
-- identifier otherwise.
abbrev pub ReadsAs : AstPrimitiveType → TokenType → Type 0
ReadsAs p type =
    ((tc_primitive_width p < 64)
      × (is_primitive_type_token type ≡ true)
      × (primitive_type_from_token type ≡ p))
    ⊎ ((tc_primitive_width p ≡ 64) × (type ≡ tok_identifier))

-- What there is to see of each name.
record IsSpelled (p : AstPrimitiveType) : Type 0 where
  parts : name_bytes p ≡ first_byte (name_bytes p) ∷ tail (name_bytes p)
  first_ok : (is_alpha (first_byte (name_bytes p)) || first_byte (name_bytes p) == b'_') ≡ true
  others_ok : all_identifier (tail (name_bytes p)) ≡ true

spelled : (p : AstPrimitiveType) → IsSpelled p
unfolding tc_primitive_type_name is_alpha is_identifier_byte is_alnum is_digit
spelled primitive_int8 = record { parts = refl; first_ok = refl; others_ok = refl }
spelled _ = record { parts = refl; first_ok = refl; others_ok = refl }

read_name : (p : AstPrimitiveType) → ReadsAs p (word_type (name_bytes p))
unfolding is_primitive_type_token primitive_type_from_token word_type word_type_in
    tc_primitive_type_name tc_primitive_width
read_name primitive_int64 = inr (refl, refl)
read_name primitive_uint64 = inr (refl, refl)
read_name primitive_float64 = inr (refl, refl)
read_name primitive_long = inr (refl, refl)
read_name primitive_ulong = inr (refl, refl)
read_name primitive_double = inr (refl, refl)
read_name _ = inl (omega arith, refl, refl)

-- The name under which the checker prints a primitive type, in front of a byte that cannot belong
-- to a word, is read by the lexer as one token. For a type of less than 64 bits that is a token of a
-- primitive type, and the parser gives it the same type back; for a type of 64 bits it is an
-- identifier.
pub primitive_type_from_token-tokenizer_next :
    (t : Tokenizer) (p : AstPrimitiveType) (rest : Bytes)
    → t.position.bytes ≡ codes (tc_primitive_type_name p) ++ rest
    → is_identifier_byte (first_byte rest) ≡ false
    → (u : Tokenizer) × (token : Token) × (tokenizer_next t ≡ some (u, token))
      × (u.position.bytes ≡ rest)
      × ReadsAs p token.type
unfolding make_token
primitive_type_from_token-tokenizer_next t p rest e stop =
    let s = spelled p in
    let (u, next, rest_is, o) =
      tokenizer_next_word t (first_byte (name_bytes p)) (tail (name_bytes p)) rest
        (e ∙ ap (λ bs. bs ++ rest) s.parts)
        (record {
          first_ok = s.first_ok;
          all_ok = all_identifier-All _ s.others_ok;
          stops = stop;
        }) in
    (u, _, next, rest_is, rw (← s.parts) (read_name p))
