-- ===== src/Tokenizer/Punctuation.antt =====
-- compiler/src/tokenizer/tokenizer_punctuation.c: punctuation, operators, and the starts of the
-- quoted literals. `scan_operator` is the part of the switch that touches `current` alone.
use calynda_for_wii.Base.{
  ℕ, ◌-◌, ◌+◌, ◌&&◌, Option, some, ◌>>=◌, List, [], ◌∷◌, ◌==◌, ltb, if◌then◌else◌, get_or, set,
}
use calynda_for_wii.Tokenizer.Literals.{scan_char, scan_string}
use calynda_for_wii.Tokenizer.Position.{
  Position, Token, Tokenizer, peek, peek_next, advance_char, match_char, make_token, error_token,
}
use calynda_for_wii.Tokenizer.Template.{scan_template_body}
use calynda_for_wii.Tokenizer.TokenType.{
  TokenType, tok_lparen, tok_rparen, tok_lbrace, tok_rbrace, tok_lbracket, tok_rbracket,
  tok_semicolon, tok_comma, tok_dot, tok_ellipsis, tok_arrow, tok_question, tok_colon,
  tok_dollar_lbrace, tok_assign, tok_plus_assign, tok_minus_assign, tok_star_assign,
  tok_slash_assign, tok_percent_assign, tok_amp_assign, tok_pipe_assign, tok_caret_assign,
  tok_lshift_assign, tok_rshift_assign, tok_eq, tok_neq, tok_lt, tok_gt, tok_lte, tok_gte,
  tok_logic_or, tok_logic_and, tok_pipe, tok_amp, tok_caret, tok_tilde, tok_tilde_amp,
  tok_tilde_caret, tok_lshift, tok_rshift, tok_plus, tok_plus_plus, tok_minus, tok_minus_minus,
  tok_star, tok_slash, tok_percent, tok_bang, tok_template_start, tok_template_full,
}

-- A case of the switch that tries one more character after another: the first that fits decides.
unfoldable pub one_of : Position → Position → TokenType → List (ℕ × TokenType) → Position × Token
one_of start p type [] = (p, make_token p type start)
one_of start p type ((c, longer) ∷ table) =
    match_char p c (λ q. (q, make_token q longer start)) (one_of start p type table)

-- `<` and `>`, which have a third character.
unfoldable pub shift_or :
    Position → Position → ℕ → TokenType → TokenType → TokenType → TokenType → Position × Token
shift_or start p c shift shift_assign or_equal alone =
    match_char p c (λ q. one_of start q shift ((b'=', shift_assign) ∷ []))
      (one_of start p alone ((b'=', or_equal) ∷ []))

-- The operators that share their first character with others, and the default case.
unfoldable pub scan_compound : ℕ → Position → Position → Position × Token
scan_compound c start p =
    if c == b'-'
    then one_of start p tok_minus
        ((b'>', tok_arrow) ∷ (b'-', tok_minus_minus) ∷ (b'=', tok_minus_assign) ∷ [])
    else if c == b'+'
    then one_of start p tok_plus ((b'+', tok_plus_plus) ∷ (b'=', tok_plus_assign) ∷ [])
    else if c == b'*'
    then one_of start p tok_star ((b'=', tok_star_assign) ∷ [])
    else if c == b'/'
    then one_of start p tok_slash ((b'=', tok_slash_assign) ∷ [])
    else if c == b'%'
    then one_of start p tok_percent ((b'=', tok_percent_assign) ∷ [])
    else if c == b'='
    then one_of start p tok_assign ((b'=', tok_eq) ∷ [])
    else if c == b'!'
    then one_of start p tok_bang ((b'=', tok_neq) ∷ [])
    else if c == b'<'
    then shift_or start p b'<' tok_lshift tok_lshift_assign tok_lte tok_lt
    else if c == b'>'
    then shift_or start p b'>' tok_rshift tok_rshift_assign tok_gte tok_gt
    else if c == b'&'
    then one_of start p tok_amp ((b'&', tok_logic_and) ∷ (b'=', tok_amp_assign) ∷ [])
    else if c == b'|'
    then one_of start p tok_pipe ((b'|', tok_logic_or) ∷ (b'=', tok_pipe_assign) ∷ [])
    else if c == b'^'
    then one_of start p tok_caret ((b'=', tok_caret_assign) ∷ [])
    else if c == b'~'
    then one_of start p tok_tilde ((b'&', tok_tilde_amp) ∷ (b'^', tok_tilde_caret) ∷ [])
    else if c == b'$'
    then match_char p b'{' (λ q. one_of start q tok_dollar_lbrace [])
        (p, error_token "Unexpected character '$'" start)
    else (p, error_token "Unexpected character" start)

-- `c` is the character read, and `p` stands behind it.
unfoldable pub scan_operator : ℕ → Position → Position → Position × Token
scan_operator c start p =
    if c == b'('
    then one_of start p tok_lparen []
    else if c == b')'
    then one_of start p tok_rparen []
    else if c == b'{'
    then one_of start p tok_lbrace []
    else if c == b'}'
    then one_of start p tok_rbrace []
    else if c == b'['
    then one_of start p tok_lbracket []
    else if c == b']'
    then one_of start p tok_rbracket []
    else if c == b';'
    then one_of start p tok_semicolon []
    else if c == b','
    then one_of start p tok_comma []
    else if c == b'.'
    then if peek p == b'.' && peek_next p == b'.'
      then one_of start (advance_char (advance_char p)) tok_ellipsis []
      else one_of start p tok_dot []
    else if c == b'?'
    then one_of start p tok_question []
    else if c == b':'
    then one_of start p tok_colon []
    else scan_compound c start p

-- The braces of the innermost interpolation that are open.
abbrev pub brace_depth : Tokenizer → ℕ
brace_depth t = get_or t.interpolation_brace_depth (t.template_depth - 1) 0

abbrev set_brace_depth : Tokenizer → ℕ → Tokenizer
set_brace_depth t n = record t {
  interpolation_brace_depth = set t.interpolation_brace_depth (t.template_depth - 1) n;
}

-- What `{` and `}` do to the brace depth.
unfoldable pub count_brace : ℕ → Tokenizer → Tokenizer
count_brace c t =
    if c == b'{' && ltb 0 t.template_depth
    then set_brace_depth t (brace_depth t + 1)
    else if c == b'}' && (ltb 0 t.template_depth && ltb 0 (brace_depth t))
    then set_brace_depth t (brace_depth t - 1)
    else t

-- Put the result of a scanner that touches `current` alone back into the state.
abbrev pub with_position : Tokenizer → Position × Token → Tokenizer × Token
with_position t (p, token) = (record t { position = p }, token)

abbrev pub lift_result : Tokenizer → Option (Position × Token) → Option (Tokenizer × Token)
lift_result t r = r >>= λ done. some (with_position t done)

-- `c` is the character read, and `t` stands behind it.
unfoldable pub scan_punctuation : ℕ → Position → Tokenizer → Option (Tokenizer × Token)
scan_punctuation c start t =
    if c == b'\''
    then some (with_position t (scan_char start t.position))
    else if c == b'"'
    then lift_result t (scan_string start t.position)
    else if c == b'`'
    then scan_template_body t start tok_template_start tok_template_full
    else some (with_position (count_brace c t) (scan_operator c start t.position))
