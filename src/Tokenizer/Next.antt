-- ===== src/Tokenizer/Next.antt =====
-- compiler/src/tokenizer/tokenizer.c: white space and comments, `tokenizer_next`, `tokenizer_init`.
-- Loops that consume a varying number of characters in a round run on fuel, one unit for a round;
-- `none` says that the fuel ran out.
use calynda_for_wii.Base.{
  ℕ, zero, suc, ◌+◌, ◌-◌, Bool, not, ◌&&◌, ◌||◌, Option, none, some, ◌>>=◌, [], ◌∷◌, ◌==◌, ltb,
  if◌then◌else◌, Bytes, length, replicate,
}
use calynda_for_wii.Tokenizer.Keywords.{scan_identifier}
use calynda_for_wii.Tokenizer.Literals.{scan_number}
use calynda_for_wii.Tokenizer.Position.{
  Position, Token, Tokenizer, tokenizer_max_template_depth, peek, peek_next, is_at_end,
  advance_char, advance_while, is_alpha, is_digit, make_token,
}
use calynda_for_wii.Tokenizer.Punctuation.{brace_depth, with_position, scan_punctuation}
use calynda_for_wii.Tokenizer.Template.{scan_template_body}
use calynda_for_wii.Tokenizer.TokenType.{tok_eof, tok_template_middle, tok_template_end}

unfoldable pub is_space : ℕ → Bool
is_space c = c == b' ' || c == b'\t' || c == b'\r' || c == b'\n'

-- The rest of a block comment, from a position behind its "/*". The list is `p.bytes`.
unfoldable pub skip_block : Bytes → Position → Position
skip_block [] p = p
skip_block (c ∷ cs) p =
    let rest = skip_block cs (advance_char p) in
    if c == 0
    then p
    else if c == b'*' && peek_next p == b'/'
    then advance_char (advance_char p)
    else rest

abbrev behind_block : Position → Position
behind_block p = skip_block p.bytes p

unfoldable pub skip_loop : ℕ → Position → Option Position
skip_loop zero p = none
skip_loop (suc fuel) p =
    let space = skip_loop fuel (advance_char p) in
    let line = skip_loop fuel (advance_while (λ c. not (c == b'\n')) p) in
    let block = skip_loop fuel (behind_block (advance_char (advance_char p))) in
    if is_space (peek p)
    then space
    else if peek p == b'/'
    then if peek_next p == b'/' then line else if peek_next p == b'*' then block else some p
    else some p

unfoldable pub skip_whitespace : Position → Option Position
skip_whitespace p = skip_loop (length p.bytes + 1) p

-- `}` ends an interpolation where all braces that it opened are closed.
unfoldable pub resumes_template : Tokenizer → Bool
resumes_template t = ltb 0 t.template_depth && (brace_depth t == 0 && peek t.position == b'}')

-- The state behind one character.
abbrev pub advance_tokenizer : Tokenizer → Tokenizer
advance_tokenizer t = record t { position = advance_char t.position }

-- `tokenizer_next` behind the white space.
unfoldable pub scan_token : Tokenizer → Option (Tokenizer × Token)
scan_token t =
    let start = t.position in
    let c = peek start in
    let u = advance_tokenizer t in
    if resumes_template t
    then scan_template_body (record u { template_depth = t.template_depth - 1 }) start
        tok_template_middle tok_template_end
    else if is_at_end start
    then some (t, make_token start tok_eof start)
    else if is_alpha c || c == b'_'
    then some (with_position u (scan_identifier start u.position))
    else if is_digit c
    then some (with_position u (scan_number start u.position))
    else scan_punctuation c start u

unfoldable pub tokenizer_next : Tokenizer → Option (Tokenizer × Token)
tokenizer_next t = skip_whitespace t.position >>= λ p. scan_token (record t { position = p })

unfoldable pub tokenizer_init : Bytes → Tokenizer
tokenizer_init source = record {
  source = source;
  position = record { offset = 0; bytes = source; line = 1; column = 1 };
  template_depth = 0;
  interpolation_brace_depth = replicate tokenizer_max_template_depth 0;
}
