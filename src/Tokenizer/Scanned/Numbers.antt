-- ===== src/Tokenizer/Scanned/Numbers.antt =====
-- The scanners of numbers and names stay in the text, and their tokens start at `start`.
use calynda_for_wii.Base.{ℕ, ◌-◌, within, Bool, true, false, ◌||◌, ◌≡◌, arith, ◌==◌, String}
use calynda_for_wii.Tokenizer.Ahead.{advance_while-Ahead, step-Ahead, Ahead}
use calynda_for_wii.Tokenizer.Keywords.{is_identifier_byte, scan_identifier, check_keyword}
use calynda_for_wii.Tokenizer.Literals.{
  scan_radix, scan_exponent_digits, scan_exponent, scan_decimal, scan_number,
}
use calynda_for_wii.Tokenizer.Position.{
  Position, is_at_end, advance_char, advance_while, is_digit, is_xdigit,
}
use calynda_for_wii.Tokenizer.Scanned.{Scanned, made_at, failed_at}
use calynda_for_wii.Tokenizer.TokenType.{tok_int_lit, tok_float_lit, tok_underscore}

module _ (origin start : Position) where
  pub scan_identifier-Scanned :
      (p : Position) → Ahead p origin → Scanned origin start (scan_identifier start p)
  unfolding scan_identifier
  scan_identifier-Scanned p a =
      let q = advance_while is_identifier_byte p in
      let b = advance_while-Ahead origin is_identifier_byte p a in
      ground (
        arith,
        made_at origin start q tok_underscore b,
        made_at origin start q (check_keyword start.bytes (q.offset - start.offset)) b,
      )

  scan_radix-Scanned :
      (digit : ℕ → Bool) (msg : String) (p : Position)
      → is_at_end p ≡ false
      → Ahead p origin
      → Scanned origin start (scan_radix digit msg start p)
  unfolding scan_radix
  scan_radix-Scanned digit msg p h a =
      let q = advance_char p in
      let b = step-Ahead origin p h a in
      ground (
        arith,
        failed_at origin start q msg b,
        made_at origin start (advance_while digit q) tok_int_lit
            (advance_while-Ahead origin digit q b),
      )

  scan_exponent_digits-Scanned :
      (p : Position) → Ahead p origin → Scanned origin start (scan_exponent_digits start p)
  unfolding scan_exponent_digits
  scan_exponent_digits-Scanned p a = ground (
    arith,
    failed_at origin start p "Expected digit in exponent" a,
    made_at origin start (advance_while is_digit p) tok_float_lit
        (advance_while-Ahead origin is_digit p a),
  )

  scan_exponent-Scanned :
      (is_float : Bool) (p : Position)
      → Ahead p origin
      → Scanned origin start (scan_exponent is_float start p)
  unfolding scan_exponent
  scan_exponent-Scanned is_float p a =
      let q = advance_char p in
      ground (
        arith,
        step-Ahead origin p,
        step-Ahead origin q,
        scan_exponent_digits-Scanned (advance_char q),
        scan_exponent_digits-Scanned q,
        made_at origin start p tok_int_lit a,
        made_at origin start p tok_float_lit a,
      )

  scan_decimal-Scanned :
      (p : Position) → Ahead p origin → Scanned origin start (scan_decimal start p)
  unfolding scan_decimal
  scan_decimal-Scanned p a =
      let q = advance_while is_digit p in
      let b = advance_while-Ahead origin is_digit p a in
      ground (
        arith,
        b,
        step-Ahead origin q,
        scan_exponent-Scanned false q b,
        advance_while-Ahead origin is_digit (advance_char q),
        scan_exponent-Scanned true (advance_while is_digit (advance_char q)),
      )

  pub scan_number-Scanned :
      (p : Position) → Ahead p origin → Scanned origin start (scan_number start p)
  unfolding scan_number
  scan_number-Scanned p a = ground (
    arith,
    scan_decimal-Scanned p a,
    scan_radix-Scanned (λ c. c == b'0' || c == b'1') "Expected binary digit after 0b" p,
    scan_radix-Scanned (within b'0' b'7') "Expected octal digit after 0o" p,
    scan_radix-Scanned is_xdigit "Expected hex digit after 0x" p,
  )
