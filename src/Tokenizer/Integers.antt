-- ===== src/Tokenizer/Integers.antt =====
-- compiler/src/tokenizer/tokenizer_literals.c: decimal integers.
use calynda_for_wii.Tokenizer.Punctuation.{with_position}
use calynda_for_wii.Base.{
  ◌∙◌, ◌∙◌, length, All, some, ◌||◌, ◌==◌, Bytes, ◌≡◌, ℕ, suc, ◌+◌, ◌++◌, [], ◌∷◌, refl, ap, tail,
  true, false, arith,
}
use calynda_for_wii.Tokenizer.Keywords.{is_identifier_byte}
use calynda_for_wii.Tokenizer.Literals.{scan_number, scan_decimal, scan_exponent}
use calynda_for_wii.Tokenizer.Next.{
  advance_tokenizer, is_space, tokenizer_next, scan_token, resumes_template,
}
use calynda_for_wii.Tokenizer.Position.{
  Position, Tokenizer, peek, is_at_end, is_digit, is_alpha, is_alnum, advance_char, advance_run,
  make_token, first_byte,
}
use calynda_for_wii.Tokenizer.TokenType.{tok_int_lit}
use calynda_for_wii.Tokenizer.Words.{skip_bare, behind_first}

-- A decimal integer as the lexer sees it: digits, then a byte that is no point and does not belong to
-- a word.
pub record IsDecimal (c : ℕ) (w rest : Bytes) : Type 0 where
  pub first_ok : is_digit c ≡ true
  pub all_ok : All (λ d. is_digit d ≡ true) w
  pub stops : is_identifier_byte (first_byte rest) ≡ false
  pub no_point : (first_byte rest == b'.') ≡ false

-- A run takes all of `w`, and stops in front of a byte that is no digit.
run_digits :
    (w rest : Bytes) (p : Position)
    → p.bytes ≡ w ++ rest
    → All (λ c. is_digit c ≡ true) w
    → is_digit (first_byte rest) ≡ false
    → (q : Position) × (advance_run is_digit (w ++ rest) p ≡ q)
      × (q.bytes ≡ rest)
      × (q.offset ≡ p.offset + length w)
unfolding advance_run advance_char is_digit
run_digits [] [] p e all stop = (p, ground arith, e, omega arith)
run_digits [] (c ∷ rest) p e all stop = (p, ground arith, e, omega arith)
run_digits (c ∷ w) rest p e all stop =
    let (q, r, b, o) = run_digits w rest (advance_char p) (ap tail e) all.1 stop in
    (q, ground arith, b, omega arith)

-- Neither a radix nor an exponent begins with such a byte.
abbrev IsPlain : ℕ → Type 0
IsPlain b =
    ((b == b'b' || b == b'B') ≡ false)
    × ((b == b'o' || b == b'O') ≡ false)
    × ((b == b'x' || b == b'X') ≡ false)
    × ((b == b'e' || b == b'E') ≡ false)

digit-IsPlain : (b : ℕ) → is_digit b ≡ true → IsPlain b
unfolding is_digit
digit-IsPlain b h = (ground arith, ground arith, ground arith, ground arith)

stop-IsPlain : (b : ℕ) → is_identifier_byte b ≡ false → IsPlain b × (is_digit b ≡ false)
unfolding is_identifier_byte is_alnum is_alpha is_digit
stop-IsPlain b h = ((ground arith, ground arith, ground arith, ground arith), ground arith)

next-IsPlain : (c : ℕ) (w rest : Bytes) → IsDecimal c w rest → IsPlain (first_byte (w ++ rest))
next-IsPlain c [] rest h = (stop-IsPlain (first_byte rest) h.stops).0
next-IsPlain c (d ∷ w) rest h = digit-IsPlain d h.all_ok.0

scan_number-scan_decimal :
    (start p : Position) → IsPlain (peek p) → scan_number start p ≡ scan_decimal start p
unfolding scan_number
scan_number-scan_decimal start p h = ground arith

scan_decimal_plain :
    (start p q : Position)
    → advance_run is_digit p.bytes p ≡ q
    → (peek q == b'.') ≡ false
    → (peek q == b'e' || peek q == b'E') ≡ false
    → scan_decimal start p ≡ (q, make_token q tok_int_lit start)
unfolding scan_decimal scan_exponent
scan_decimal_plain start p q r h k = rw r (ground arith)

scan_token_number :
    (t : Tokenizer)
    → is_digit (peek t.position) ≡ true
    → scan_token t
      ≡ some
          (with_position (advance_tokenizer t) (scan_number t.position (advance_char t.position)))
unfolding scan_token resumes_template is_at_end peek is_digit is_alpha
scan_token_number t h = ground arith

digit_first : (c : ℕ) → is_digit c ≡ true → (is_space c ≡ false) × ((c == b'/') ≡ false)
unfolding is_digit is_space
digit_first c h = (ground arith, ground arith)

-- A decimal integer in front of a byte that is no point and cannot belong to a word is read as one
-- token of an integer literal: the lexer takes all of its digits.
pub tokenizer_next_decimal :
    (t : Tokenizer) (c : ℕ) (w rest : Bytes)
    → t.position.bytes ≡ c ∷ (w ++ rest)
    → IsDecimal c w rest
    → (u : Tokenizer) × (tokenizer_next t ≡ some (u, make_token u.position tok_int_lit t.position))
      × (u.position.bytes ≡ rest)
      × (u.position.offset ≡ t.position.offset + suc (length w))
unfolding tokenizer_next
tokenizer_next_decimal t c w rest e h =
    let p = t.position in
    let first : peek p ≡ c = unfold peek in ap first_byte e in
    let digit : is_digit (peek p) ≡ true = rw first h.first_ok in
    let (plain, no_digit) = stop-IsPlain (first_byte rest) h.stops in
    let (here, behind) = behind_first c w rest p e in
    let (q, run, rest_is, o) = run_digits w rest (advance_char p) here h.all_ok no_digit in
    let run' : advance_run is_digit (advance_char p).bytes (advance_char p) ≡ q =
      ap (λ bs. advance_run is_digit bs (advance_char p)) here ∙ run in
    let next : peek (advance_char p) ≡ first_byte (w ++ rest) = unfold peek in ap first_byte here in
    let behind_q : peek q ≡ first_byte rest = unfold peek in ap first_byte rest_is in
    let number =
      scan_number-scan_decimal p (advance_char p) (rw next (next-IsPlain c w rest h))
      ∙ scan_decimal_plain p (advance_char p) q run' (rw behind_q h.no_point)
          (rw behind_q plain.3) in
    (
      record t { position = q },
      rw (skip_bare p (digit_first (peek p) digit).0 (digit_first (peek p) digit).1)
          (scan_token_number t digit ∙ rw number refl),
      rest_is,
      omega (arith, o, behind),
    )
