-- ===== src/Tokenizer/Scanned/Operators.antt =====
-- The scanner of operators stays in the text.
use calynda_for_wii.Base.{ℕ, List, [], ◌∷◌, arith}
use calynda_for_wii.Tokenizer.Ahead.{is_at_end-peek, is_at_end-peek_next, Ahead, step-Ahead}
use calynda_for_wii.Tokenizer.Position.{Position, advance_char, match_char}
use calynda_for_wii.Tokenizer.Punctuation.{one_of, shift_or, scan_operator, scan_compound}
use calynda_for_wii.Tokenizer.Scanned.{Scanned, made_at, failed_at}
use calynda_for_wii.Tokenizer.TokenType.{
  TokenType, tok_amp, tok_amp_assign, tok_arrow, tok_assign, tok_bang, tok_caret, tok_caret_assign,
  tok_colon, tok_comma, tok_dollar_lbrace, tok_dot, tok_ellipsis, tok_eq, tok_gt, tok_gte,
  tok_lbrace, tok_lbracket, tok_logic_and, tok_logic_or, tok_lparen, tok_lshift, tok_lshift_assign,
  tok_lt, tok_lte, tok_minus, tok_minus_assign, tok_minus_minus, tok_neq, tok_percent,
  tok_percent_assign, tok_pipe, tok_pipe_assign, tok_plus, tok_plus_assign, tok_plus_plus,
  tok_question, tok_rbrace, tok_rbracket, tok_rparen, tok_rshift, tok_rshift_assign, tok_semicolon,
  tok_slash, tok_slash_assign, tok_star, tok_star_assign, tok_tilde, tok_tilde_amp, tok_tilde_caret,
}

module _ (origin start : Position) where
  one_of-Scanned :
      (table : List (ℕ × TokenType)) (p : Position) (type : TokenType)
      → Ahead p origin
      → Scanned origin start (one_of start p type table)
  unfolding one_of match_char
  one_of-Scanned [] p type a = made_at origin start p type a
  one_of-Scanned ((c, longer) ∷ table) p type a = ground (
    arith,
    step-Ahead origin p,
    made_at origin start (advance_char p) longer,
    one_of-Scanned table p type a,
  )

  shift_or-Scanned :
      (p : Position) (c : ℕ) (shift shift_assign or_equal alone : TokenType)
      → Ahead p origin
      → Scanned origin start (shift_or start p c shift shift_assign or_equal alone)
  unfolding shift_or match_char
  shift_or-Scanned p c shift shift_assign or_equal alone a = ground (
    arith,
    step-Ahead origin p,
    one_of-Scanned ((b'=', shift_assign) ∷ []) (advance_char p) shift,
    one_of-Scanned ((b'=', or_equal) ∷ []) p alone a,
  )

  scan_compound-Scanned :
      (c : ℕ) (p : Position) → Ahead p origin → Scanned origin start (scan_compound c start p)
  unfolding scan_compound match_char
  scan_compound-Scanned c p a = ground (
    arith,
    step-Ahead origin p,
    failed_at origin start p "Unexpected character '$'" a,
    failed_at origin start p "Unexpected character" a,
    one_of-Scanned ((b'>', tok_arrow) ∷ (b'-', tok_minus_minus) ∷ (b'=', tok_minus_assign) ∷ []) p
        tok_minus a,
    one_of-Scanned ((b'+', tok_plus_plus) ∷ (b'=', tok_plus_assign) ∷ []) p tok_plus a,
    one_of-Scanned ((b'=', tok_star_assign) ∷ []) p tok_star a,
    one_of-Scanned ((b'=', tok_slash_assign) ∷ []) p tok_slash a,
    one_of-Scanned ((b'=', tok_percent_assign) ∷ []) p tok_percent a,
    one_of-Scanned ((b'=', tok_eq) ∷ []) p tok_assign a,
    one_of-Scanned ((b'=', tok_neq) ∷ []) p tok_bang a,
    one_of-Scanned ((b'&', tok_logic_and) ∷ (b'=', tok_amp_assign) ∷ []) p tok_amp a,
    one_of-Scanned ((b'|', tok_logic_or) ∷ (b'=', tok_pipe_assign) ∷ []) p tok_pipe a,
    one_of-Scanned ((b'=', tok_caret_assign) ∷ []) p tok_caret a,
    one_of-Scanned ((b'&', tok_tilde_amp) ∷ (b'^', tok_tilde_caret) ∷ []) p tok_tilde a,
    one_of-Scanned [] (advance_char p) tok_dollar_lbrace,
    shift_or-Scanned p b'<' tok_lshift tok_lshift_assign tok_lte tok_lt a,
    shift_or-Scanned p b'>' tok_rshift tok_rshift_assign tok_gte tok_gt a,
  )

  pub scan_operator-Scanned :
      (c : ℕ) (p : Position) → Ahead p origin → Scanned origin start (scan_operator c start p)
  unfolding scan_operator
  scan_operator-Scanned c p a = ground (
    arith,
    is_at_end-peek p,
    is_at_end-peek_next p,
    step-Ahead origin p,
    step-Ahead origin (advance_char p),
    scan_compound-Scanned c p a,
    one_of-Scanned [] p tok_lparen a,
    one_of-Scanned [] p tok_rparen a,
    one_of-Scanned [] p tok_lbrace a,
    one_of-Scanned [] p tok_rbrace a,
    one_of-Scanned [] p tok_lbracket a,
    one_of-Scanned [] p tok_rbracket a,
    one_of-Scanned [] p tok_semicolon a,
    one_of-Scanned [] p tok_comma a,
    one_of-Scanned [] (advance_char (advance_char p)) tok_ellipsis,
    one_of-Scanned [] p tok_dot a,
    one_of-Scanned [] p tok_question a,
    one_of-Scanned [] p tok_colon a,
  )
