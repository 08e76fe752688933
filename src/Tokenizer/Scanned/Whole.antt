-- ===== src/Tokenizer/Scanned/Whole.antt =====
-- `tokenizer_next` from any state: it ends, and its token starts behind white space.
use calynda_for_wii.Base.{
  ℕ, zero, suc, ◌+◌, ◌-◌, ◌<◌, true, false, not, ◌&&◌, ◌||◌, Option, some, none, ◌≡◌, refl, arith,
  ◌==◌, length, Bytes, [], ◌∷◌,
}
use calynda_for_wii.Tokenizer.Keywords.{scan_identifier}
use calynda_for_wii.Tokenizer.Literals.{scan_number, scan_string}
use calynda_for_wii.Tokenizer.Punctuation.{
  with_position, lift_result, count_brace, scan_punctuation,
}
use calynda_for_wii.Tokenizer.Template.{scan_template_body}
use calynda_for_wii.Tokenizer.TokenType.{
  tok_eof, tok_template_start, tok_template_full, tok_template_middle, tok_template_end,
}
use calynda_for_wii.Tokenizer.Scanned.Numbers.{scan_identifier-Scanned, scan_number-Scanned}
use calynda_for_wii.Tokenizer.Scanned.Quoted.{scan_char-Scanned, scan_string-Scanned}
use calynda_for_wii.Tokenizer.Scanned.Operators.{scan_operator-Scanned}
use calynda_for_wii.Tokenizer.Scanned.Template.{ScannedIn, scan_template_body-Scanned}
use calynda_for_wii.Base.Returns.{Returns-value, Returns}
use calynda_for_wii.Tokenizer.Ahead.{
  advance_while_first, Ahead, here, Ahead-refl, step-Ahead, advance_while-Ahead, Ahead-shorter,
  is_at_end-peek, is_at_end-peek_next,
}
use calynda_for_wii.Tokenizer.Next.{
  skip_block, skip_loop, skip_whitespace, scan_token, tokenizer_next, is_space, resumes_template,
  advance_tokenizer,
}
use calynda_for_wii.Tokenizer.Position.{
  Position, Tokenizer, Token, is_at_end, peek, peek_next, advance_char, advance_while, make_token,
}
use calynda_for_wii.Tokenizer.Scanned.{Scanned}

-- Here neither white space nor a comment begins.
abbrev pub IsBare : Position → Type 0
IsBare p =
    (is_space (peek p) ≡ false)
    × ((peek p == b'/' && (peek_next p == b'/' || peek_next p == b'*')) ≡ false)

-- The position from which a round of the loop goes on is nearer to the end of the text.
line_comment-Ahead :
    (p : Position)
    → (peek p == b'/') ≡ true
    → Ahead (advance_while (λ c. not (c == b'\n')) p) (advance_char p)
line_comment-Ahead p h =
    advance_while_first (λ c. not (c == b'\n')) p (ground (arith, is_at_end-peek p)) (ground arith)

module _ (start : Position) where
  skip_block-Ahead :
      (bs : Bytes) (p : Position) → p.bytes ≡ bs → Ahead p start → Ahead (skip_block bs p) start
  unfolding skip_block is_at_end peek_next advance_char
  skip_block-Ahead [] p e a = a
  skip_block-Ahead (c ∷ cs) p e a = ground (
    arith,
    a,
    step-Ahead start p,
    step-Ahead start (advance_char p),
    skip_block-Ahead cs (advance_char p),
  )

  behind_block-Ahead : (p : Position) → Ahead p start → Ahead (skip_block p.bytes p) start
  behind_block-Ahead p a = skip_block-Ahead p.bytes p refl a

module _ (start : Position) where
  skip_loop-Ahead :
      (fuel : ℕ) (p : Position)
      → length p.bytes < fuel
      → Ahead p start
      → Returns (λ q. Ahead q start × IsBare q) (skip_loop fuel p)
  unfolding skip_loop is_space
  skip_loop-Ahead zero p lt a = elim lt [ ]
  skip_loop-Ahead (suc fuel) p lt a =
      let q = advance_char p in
      let line = advance_while (λ c. not (c == b'\n')) p in
      let block = skip_block (advance_char q).bytes (advance_char q) in
      ground (
        arith,
        a,
        is_at_end-peek p,
        is_at_end-peek_next p,
        step-Ahead start p,
        step-Ahead start q,
        Ahead-refl q,
        step-Ahead q q,
        Ahead-shorter p q,
        advance_while-Ahead start (λ c. not (c == b'\n')) p a,
        line_comment-Ahead p,
        Ahead-shorter p line,
        behind_block-Ahead start (advance_char q),
        behind_block-Ahead q (advance_char q),
        Ahead-shorter p block,
        skip_loop-Ahead fuel q,
        skip_loop-Ahead fuel line,
        skip_loop-Ahead fuel block,
      )

module _ (start : Position) where
  pub skip_whitespace-Ahead :
      (p : Position) → Ahead p start → Returns (λ q. Ahead q start × IsBare q) (skip_whitespace p)
  unfolding skip_whitespace
  skip_whitespace-Ahead p a = skip_loop-Ahead start (length p.bytes + 1) p (omega arith) a

-- The end of the text leaves the state alone; any other token takes its first character.
pub data Lexed (t : Tokenizer) : Tokenizer × Token → Type 0 where
  ended : is_at_end t.position ≡ true → Lexed t (t, make_token t.position tok_eof t.position)
  scanned :
      {u : Tokenizer} {token : Token}
      → is_at_end t.position ≡ false
      → Scanned (advance_char t.position) t.position (u.position, token)
      → Lexed t (u, token)

at_end :
    (t : Tokenizer)
    → is_at_end t.position ≡ true
    → Lexed t (t, make_token t.position tok_eof t.position)
at_end t h = ended h

scanned_at :
    (t : Tokenizer) (r : Tokenizer × Token)
    → is_at_end t.position ≡ false
    → ScannedIn (advance_char t.position) t.position r
    → Lexed t r
scanned_at t (u, token) h s = scanned h s

lifted :
    (origin start : Position) (t : Tokenizer) (o : Option (Position × Token))
    → Returns (Scanned origin start) o
    → Returns (ScannedIn origin start) (lift_result t o)
lifted origin start t (some r) s = s
lifted origin start t none s = absurd s

count_brace_position : (c : ℕ) (t : Tokenizer) → (count_brace c t).position ≡ t.position
unfolding count_brace
count_brace_position c t = ground arith

lexed :
    (t : Tokenizer) (o : Option (Tokenizer × Token))
    → is_at_end t.position ≡ false
    → Returns (ScannedIn (advance_char t.position) t.position) o
    → Returns (Lexed t) o
lexed t (some r) h s = scanned_at t r h s
lexed t none h s = absurd s

scan_punctuation-Scanned :
    (origin start : Position) (c : ℕ) (t : Tokenizer)
    → Ahead t.position origin
    → Returns (ScannedIn origin start) (scan_punctuation c start t)
unfolding scan_punctuation
scan_punctuation-Scanned origin start c t a = ground (
  arith,
  scan_char-Scanned origin start t.position a,
  lifted origin start t (scan_string start t.position)
      (scan_string-Scanned origin start t.position a),
  scan_template_body-Scanned origin start tok_template_start tok_template_full t a,
  scan_operator-Scanned origin start c t.position a,
  count_brace_position c t,
)

pub scan_token-Lexed : (t : Tokenizer) → Returns (Lexed t) (scan_token t)
unfolding scan_token resumes_template
scan_token-Lexed t =
    let start = t.position in
    let p = advance_char start in
    let u = advance_tokenizer t in
    let b = Ahead-refl p in
    let resumed = record u { template_depth = t.template_depth - 1 } in
    ground (
      arith,
      is_at_end-peek start,
      at_end t,
      lexed t (scan_template_body resumed start tok_template_middle tok_template_end),
      scan_template_body-Scanned p start tok_template_middle tok_template_end resumed b,
      scanned_at t (with_position u (scan_identifier start p)),
      scan_identifier-Scanned p start p b,
      scanned_at t (with_position u (scan_number start p)),
      scan_number-Scanned p start p b,
      lexed t (scan_punctuation (peek start) start u),
      scan_punctuation-Scanned p start (peek start) u b,
    )

-- The token of `tokenizer_next` is scanned behind white space and comments.
pub record NextLexed (t : Tokenizer) (r : Tokenizer × Token) : Type 0 where
  pub bare : Position
  pub skipped : Ahead bare t.position
  pub is_bare : IsBare bare
  pub lexed_there : Lexed (record t { position = bare }) r

behind_space :
    (t : Tokenizer) (q : Position) (o : Option (Tokenizer × Token))
    → Ahead q t.position × IsBare q
    → Returns (Lexed (record t { position = q })) o
    → Returns (NextLexed t) o
behind_space t q (some r) a l = record { bare = q; skipped = a.0; is_bare = a.1; lexed_there = l }
behind_space t q none a l = absurd l

pub tokenizer_next-NextLexed : (t : Tokenizer) → Returns (NextLexed t) (tokenizer_next t)
unfolding tokenizer_next
tokenizer_next-NextLexed t =
    let (q, e, a) =
      Returns-value (λ q. Ahead q t.position × IsBare q) (skip_whitespace t.position)
        (skip_whitespace-Ahead t.position t.position here) in
    rw e (
      behind_space t q (scan_token (record t { position = q })) a
        (scan_token-Lexed (record t { position = q })))
