-- ===== src/Tokenizer/Literals.antt =====
-- compiler/src/tokenizer/tokenizer_literals.c: number, character and string literals.
-- The loop of a string runs on fuel, one unit for a round; `none` says that the fuel ran out.
use calynda_for_wii.Base.{
  ℕ, zero, suc, ◌+◌, Bool, true, false, not, ◌&&◌, ◌||◌, Option, none, some, ◌==◌, if◌then◌else◌,
  within, length, String,
}
use calynda_for_wii.Tokenizer.Position.{
  Position, Token, first_byte, peek, peek_next, is_at_end, advance_char, advance_while, is_digit,
  is_xdigit, make_token, error_token,
}
use calynda_for_wii.Tokenizer.TokenType.{tok_int_lit, tok_float_lit, tok_char_lit, tok_string_lit}

-- The digits behind "0b", "0o" or "0x"; `p` stands at the letter.
unfoldable pub scan_radix : (ℕ → Bool) → String → Position → Position → Position × Token
scan_radix digit msg start p =
    let q = advance_char p in
    let r = advance_while digit q in
    if is_at_end q || not (digit (peek q))
    then (q, error_token msg start)
    else (r, make_token r tok_int_lit start)

-- Behind "e" and its sign.
unfoldable pub scan_exponent_digits : Position → Position → Position × Token
scan_exponent_digits start p =
    let q = advance_while is_digit p in
    if is_at_end p || not (is_digit (peek p))
    then (p, error_token "Expected digit in exponent" start)
    else (q, make_token q tok_float_lit start)

-- The exponent, if there is one; `is_float` says whether a fraction was read.
unfoldable pub scan_exponent : Bool → Position → Position → Position × Token
scan_exponent is_float start p =
    let q = advance_char p in
    if not (is_at_end p) && (peek p == b'e' || peek p == b'E')
    then if not (is_at_end q) && (peek q == b'+' || peek q == b'-')
      then scan_exponent_digits start (advance_char q)
      else scan_exponent_digits start q
    else (p, make_token p (if is_float then tok_float_lit else tok_int_lit) start)

unfoldable pub scan_decimal : Position → Position → Position × Token
scan_decimal start p =
    let q = advance_while is_digit p in
    if not (is_at_end q) && peek q == b'.' && is_digit (peek_next q)
    then scan_exponent true start (advance_while is_digit (advance_char q))
    else scan_exponent false start q

unfoldable pub scan_number : Position → Position → Position × Token
scan_number start p =
    if first_byte start.bytes == b'0' && not (is_at_end p)
    then if peek p == b'b' || peek p == b'B'
      then scan_radix (λ c. c == b'0' || c == b'1') "Expected binary digit after 0b" start p
      else if peek p == b'o' || peek p == b'O'
      then scan_radix (within b'0' b'7') "Expected octal digit after 0o" start p
      else if peek p == b'x' || peek p == b'X'
      then scan_radix is_xdigit "Expected hex digit after 0x" start p
      else scan_decimal start p
    else scan_decimal start p

-- The four digits of "\u"; the flag says whether all are there.
unfoldable pub scan_hex_digits : ℕ → Position → Position × Bool
scan_hex_digits zero p = (p, true)
scan_hex_digits (suc n) p =
    let rest = scan_hex_digits n (advance_char p) in
    if is_at_end p || not (is_xdigit (peek p)) then (p, false) else rest

unfoldable pub is_simple_escape : ℕ → Bool
is_simple_escape c =
    c == b'n'
    || c == b't'
    || c == b'r'
    || c == b'\\'
    || c == b'\''
    || c == b'"'
    || c == b'`'
    || c == b'$'
    || c == b'0'

unfoldable pub scan_escape : Position → Position × Bool
scan_escape p =
    if is_at_end p
    then (p, false)
    else if is_simple_escape (peek p)
    then (advance_char p, true)
    else if peek p == b'u'
    then scan_hex_digits 4 (advance_char p)
    else (advance_char p, false)

-- The closing quote of a character literal.
unfoldable pub scan_char_end : Position → Position → Position × Token
scan_char_end start p =
    if is_at_end p || not (peek p == b'\'')
    then (p, error_token "Unterminated char literal" start)
    else (advance_char p, make_token (advance_char p) tok_char_lit start)

unfoldable pub scan_char : Position → Position → Position × Token
scan_char start p =
    let (q, valid) = scan_escape (advance_char p) in
    if is_at_end p || peek p == b'\n'
    then (p, error_token "Unterminated char literal" start)
    else if peek p == b'\\'
    then if valid
      then scan_char_end start q
      else (q, error_token "Invalid escape in char literal" start)
    else if peek p == b'\''
    then (p, error_token "Empty char literal" start)
    else scan_char_end start (advance_char p)

unfoldable pub scan_string_loop : ℕ → Position → Position → Option (Position × Token)
scan_string_loop zero start p = none
scan_string_loop (suc fuel) start p =
    let (q, valid) = scan_escape (advance_char p) in
    let escaped = scan_string_loop fuel start q in
    let plain = scan_string_loop fuel start (advance_char p) in
    if is_at_end p
    then some (p, error_token "Unterminated string literal" start)
    else if peek p == b'"'
    then some (advance_char p, make_token (advance_char p) tok_string_lit start)
    else if peek p == b'\n'
    then some (p, error_token "Unterminated string literal" start)
    else if peek p == b'\\'
    then if valid then escaped else some (q, error_token "Invalid escape in string" start)
    else plain

unfoldable pub scan_string : Position → Position → Option (Position × Token)
scan_string start p = scan_string_loop (length p.bytes + 1) start p
