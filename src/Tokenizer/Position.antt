-- ===== src/Tokenizer/Position.antt =====
-- compiler/src/tokenizer/tokenizer_internal.h and the structs of tokenizer.h.
-- A position is what `current`, `line` and `column` say together. The pointer `current` is its offset
-- from `source` with the bytes from there up to the terminating NUL, so `*current` of the empty rest
-- is NUL, and a step past that NUL would make the offset larger than the length of the source.
use calynda_for_wii.Base.{
  ℕ, ◌+◌, ◌-◌, Bool, not, ◌&&◌, ◌||◌, [], ◌∷◌, ◌==◌, if◌then◌else◌, within, Bytes, length, tail,
  List, String, codes,
}
use calynda_for_wii.Tokenizer.TokenType.{TokenType, tok_error}

pub record Position : Type 0 where
  pub offset : ℕ
  pub bytes : Bytes
  pub line : ℕ
  pub column : ℕ

-- `start` of a token: a place in the source, or the message of an error token.
pub data TokenText : Type 0 where
  lexeme : Position → TokenText
  message : Bytes → TokenText

pub record Token : Type 0 where
  pub type : TokenType
  pub start : TokenText
  pub length : ℕ
  pub line : ℕ
  pub column : ℕ

pub record Tokenizer : Type 0 where
  pub source : Bytes
  pub position : Position
  pub template_depth : ℕ
  pub interpolation_brace_depth : List ℕ

abbrev pub tokenizer_max_template_depth : ℕ
tokenizer_max_template_depth = 32

-- `*p` for a pointer with these bytes behind it.
abbrev pub first_byte : Bytes → ℕ
first_byte [] = 0
first_byte (c ∷ cs) = c

unfoldable pub peek : Position → ℕ
peek p = first_byte p.bytes

unfoldable pub is_at_end : Position → Bool
is_at_end p = first_byte p.bytes == 0

unfoldable pub peek_next : Position → ℕ
peek_next p = if is_at_end p then 0 else first_byte (tail p.bytes)

-- The character that the C function returns is `peek` of the position before.
unfoldable pub advance_char : Position → Position
advance_char p = record {
  offset = p.offset + 1;
  bytes = tail p.bytes;
  line = if first_byte p.bytes == b'\n' then p.line + 1 else p.line;
  column = if first_byte p.bytes == b'\n' then 1 else p.column + 1;
}

-- `if (match_char(t, expected)) ...`: the first branch goes on behind the character.
unfoldable pub match_char {ℓ} : {A : Type ℓ} → Position → ℕ → (Position → A) → A → A
match_char p expected matched other =
    if is_at_end p || not (peek p == expected) then other else matched (advance_char p)

unfoldable pub make_token : Position → TokenType → Position → Token
make_token p type start = record {
  type = type;
  start = lexeme start;
  length = p.offset - start.offset;
  line = start.line;
  column = start.column;
}

unfoldable pub error_token : String → Position → Token
error_token msg start = record {
  type = tok_error;
  start = message (codes msg);
  length = length (codes msg);
  line = start.line;
  column = start.column;
}

-- <ctype.h> in the "C" locale.
unfoldable pub is_digit : ℕ → Bool
is_digit c = within b'0' b'9' c

unfoldable pub is_xdigit : ℕ → Bool
is_xdigit c = within b'0' b'9' c || within b'a' b'f' c || within b'A' b'F' c

unfoldable pub is_alpha : ℕ → Bool
is_alpha c = within b'a' b'z' c || within b'A' b'Z' c

unfoldable pub is_alnum : ℕ → Bool
is_alnum c = is_alpha c || is_digit c

-- `while (!is_at_end(t) && test(peek(t))) advance_char(t);` The list is `p.bytes`.
unfoldable pub advance_run : (ℕ → Bool) → Bytes → Position → Position
advance_run test [] p = p
advance_run test (c ∷ cs) p =
    let rest = advance_run test cs (advance_char p) in if not (c == 0) && test c then rest else p

abbrev pub advance_while : (ℕ → Bool) → Position → Position
advance_while test p = advance_run test p.bytes p
