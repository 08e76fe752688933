-- ===== src/Tokenizer/Tests.antt =====
-- Runs of the lexer, and the theorems at concrete texts.
use calynda_for_wii.Tokenizer.Integers.{IsDecimal, tokenizer_next_decimal}
use calynda_for_wii.Tokenizer.Spaces.{skip_whitespace-IsBare}
use calynda_for_wii.Tokenizer.Scanned.Whole.{IsBare}
use calynda_for_wii.Tokenizer.Slices.{Behind}
use calynda_for_wii.Tokenizer.Position.{Position}
use calynda_for_wii.Tokenizer.Next.{skip_whitespace}
use calynda_for_wii.Tokenizer.Position.{advance_run, is_alnum}
use calynda_for_wii.Tokenizer.Keywords.{
  check_keyword_in, check_keyword, scan_identifier, is_identifier_byte,
}
use calynda_for_wii.Base.{replicate, ◌+◌, some, ◌≡◌, refl, codes, Bytes}
use calynda_for_wii.Tokenizer.Next.{
  resumes_template, scan_token, is_space, skip_block, skip_loop, skip_whitespace, tokenizer_next,
  tokenizer_init,
}
use calynda_for_wii.Tokenizer.Position.{
  is_alnum, is_digit, advance_char, is_at_end, peek_next, peek, is_alpha, Token, Tokenizer, lexeme,
  make_token,
}
use calynda_for_wii.Tokenizer.TokenType.{tok_int_lit, tok_var}
use calynda_for_wii.Tokenizer.Progress.{
  Moved, EofWithin, tokenizer_next_total, tokenizer_next-EofWithin,
}
use calynda_for_wii.Tokenizer.Slices.{IsSlice, tokenizer_next-IsSlice}
use calynda_for_wii.Tokenizer.Nesting.{IsNested, tokenizer_init-IsNested, tokenizer_next-IsNested}
use calynda_for_wii.Tokenizer.Words.{IsWord, word_type, tokenizer_next_word}

-- A declaration behind a comment.
abbrev source : Bytes
source = codes "/* n */ var x = 0x1F;"

abbrev at_start : Tokenizer
at_start = tokenizer_init source

-- The state behind `var`, and that token.
abbrev behind_var : Tokenizer
behind_var = record {
  source = source;
  position = record { offset = 11; bytes = codes " x = 0x1F;"; line = 1; column = 12 };
  template_depth = 0;
  interpolation_brace_depth = replicate 32 0;
}

abbrev var_token : Token
var_token = record {
  type = tok_var;
  start = lexeme (record { offset = 8; bytes = codes "var x = 0x1F;"; line = 1; column = 9 });
  length = 3;
  line = 1;
  column = 9;
}

read_var : tokenizer_next at_start ≡ some (behind_var, var_token)
unfolding tokenizer_next skip_whitespace skip_loop skip_block is_space peek peek_next is_at_end
    advance_char scan_token resumes_template tokenizer_init is_alpha is_digit is_alnum
    scan_identifier is_identifier_byte advance_run check_keyword check_keyword_in make_token
read_var = refl

tokenizer_next_total_example :
    (u : Tokenizer) × (token : Token) × (tokenizer_next at_start ≡ some (u, token))
    × Moved at_start u token
tokenizer_next_total_example = tokenizer_next_total at_start

tokenizer_next-IsSlice_example : IsSlice at_start behind_var var_token
tokenizer_next-IsSlice_example = tokenizer_next-IsSlice at_start read_var

tokenizer_next-EofWithin_example : EofWithin 21 at_start
tokenizer_next-EofWithin_example = tokenizer_next-EofWithin source

tokenizer_next-IsNested_example : IsNested behind_var
tokenizer_next-IsNested_example =
    tokenizer_next-IsNested at_start (tokenizer_init-IsNested source) read_var

-- The text "var x", read as the word "var" in front of a blank.
abbrev plain : Tokenizer
plain = tokenizer_init (codes "var x")

var-IsWord : IsWord b'v' (codes "ar") (codes " x")
unfolding is_alpha is_identifier_byte is_alnum is_digit
var-IsWord = record { first_ok = refl; all_ok = (refl, (refl, tt)); stops = refl }

tokenizer_next_word_example :
    (u : Tokenizer) × (tokenizer_next plain
      ≡ some (u, make_token u.position (word_type (codes "var")) plain.position))
    × (u.position.bytes ≡ codes " x")
    × (u.position.offset ≡ plain.position.offset + 3)
unfolding tokenizer_init
tokenizer_next_word_example =
    tokenizer_next_word plain b'v' (codes "ar") (codes " x") refl var-IsWord

skip_whitespace-IsBare_example :
    (q : Position) × (w : Bytes) × (skip_whitespace at_start.position ≡ some q)
    × Behind w at_start.position q
    × IsBare q
skip_whitespace-IsBare_example = skip_whitespace-IsBare at_start.position

-- The text "42;", read as the integer "42" in front of a semicolon.
abbrev number : Tokenizer
number = tokenizer_init (codes "42;")

number-IsDecimal : IsDecimal b'4' (codes "2") (codes ";")
unfolding is_alpha is_identifier_byte is_alnum is_digit
number-IsDecimal = record { first_ok = refl; all_ok = (refl, tt); stops = refl; no_point = refl }

tokenizer_next_decimal_example :
    (u : Tokenizer) × (tokenizer_next number
      ≡ some (u, make_token u.position tok_int_lit number.position))
    × (u.position.bytes ≡ codes ";")
    × (u.position.offset ≡ number.position.offset + 2)
unfolding tokenizer_init
tokenizer_next_decimal_example =
    tokenizer_next_decimal number b'4' (codes "2") (codes ";") refl number-IsDecimal
