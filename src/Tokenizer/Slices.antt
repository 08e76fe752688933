-- ===== src/Tokenizer/Slices.antt =====
-- Tokens as slices of the source: their text, and the line and column at which they start.
use calynda_for_wii.Base.{
  codes, ◌⊎◌, inl, inr, some, tail, ◌∙◌, false, ℕ, ◌+◌, Bytes, [], ◌∷◌, ◌++◌, ◌≡◌, refl, arith,
  ◌==◌, if◌then◌else◌, length,
}
use mathlib.Core.List.{append_assoc}
use calynda_for_wii.Tokenizer.Scanned.{Scanned, made, opened, failed}
use calynda_for_wii.Tokenizer.Scanned.Whole.{Lexed, ended, scanned, tokenizer_next-NextLexed}
use calynda_for_wii.Tokenizer.TokenType.{TokenType, tok_eof, tok_error}
use calynda_for_wii.Tokenizer.Next.{tokenizer_next}
use calynda_for_wii.Tokenizer.Ahead.{Ahead-trans, step, Ahead, here, more}
use calynda_for_wii.Tokenizer.Position.{
  lexeme, make_token, error_token, peek_next, peek, first_byte, Position, Token, Tokenizer,
  is_at_end, advance_char,
}

-- The line behind a text that starts on this line.
abbrev pub line_behind : ℕ → Bytes → ℕ
line_behind line [] = line
line_behind line (c ∷ cs) = line_behind (if c == b'\n' then line + 1 else line) cs

-- The column behind a text that starts in this column: 1 is the first of a line.
abbrev pub column_behind : ℕ → Bytes → ℕ
column_behind column [] = column
column_behind column (c ∷ cs) = column_behind (if c == b'\n' then 1 else column + 1) cs

-- `q` stands behind the text `w` from `p` on.
pub record Behind (w : Bytes) (p q : Position) : Type 0 where
  pub splits : p.bytes ≡ w ++ q.bytes
  pub offset_is : q.offset ≡ p.offset + length w
  pub line_is : q.line ≡ line_behind p.line w
  pub column_is : q.column ≡ column_behind p.column w

Behind-step :
    (c : ℕ) (cs w : Bytes) (p q : Position)
    → p.bytes ≡ c ∷ cs
    → Behind w (advance_char p) q
    → Behind (c ∷ w) p q
unfolding advance_char
Behind-step c cs w p q e b = record {
  splits = ground (arith, b.splits);
  offset_is = omega (arith, b.offset_is);
  line_is = b.line_is ∙ rw (e, first_byte) refl;
  column_is = b.column_is ∙ rw (e, first_byte) refl;
}

not_end : (p : Position) → is_at_end p ≡ false → (c : ℕ) × (cs : Bytes) × (p.bytes ≡ c ∷ cs)
unfolding is_at_end
not_end p h = go p.bytes h
  where
    go : (bs : Bytes) → (first_byte bs == 0) ≡ false → (c : ℕ) × (cs : Bytes) × (bs ≡ c ∷ cs)
    go [] k = cc
    go (c ∷ cs) k = (c, cs, refl)

pub Ahead-Behind : {q p : Position} → Ahead q p → (w : Bytes) × Behind w p q
Ahead-Behind {q} here =
    ([], record { splits = refl; offset_is = omega arith; line_is = refl; column_is = refl })
Ahead-Behind {q} (more {p} h a) =
    let (c, cs, e) = not_end p h in
    let (w, b) = Ahead-Behind a in (c ∷ w, Behind-step c cs w p q e b)

-- The text of a token that starts at `s`: it is followed by `rest`, but for the "${" that ends a
-- template token.
pub record HasText (token : Token) (s : Position) (rest : Bytes) : Type 0 where
  pub text : Bytes
  pub gap : Bytes
  pub start_is : token.start ≡ lexeme s
  pub splits : s.bytes ≡ text ++ gap ++ rest
  pub length_is : token.length ≡ length text
  pub gap_is : (gap ≡ []) ⊎ (gap ≡ codes "${")

-- A token of `tokenizer_next` from state `t` to state `u`, behind the text `skipped`.
pub record IsSlice (t u : Tokenizer) (token : Token) : Type 0 where
  pub skipped : Bytes
  pub start : Position
  pub start_behind : Behind skipped t.position start
  pub line_is : token.line ≡ start.line
  pub column_is : token.column ≡ start.column
  pub error_or_text : (token.type ≡ tok_error) ⊎ HasText token start u.position.bytes

made-HasText :
    (s q : Position) (type : TokenType) (gap rest : Bytes)
    → Ahead q s
    → q.bytes ≡ gap ++ rest
    → (gap ≡ []) ⊎ (gap ≡ codes "${")
    → HasText (make_token q type s) s rest
unfolding make_token
made-HasText s q type gap rest a e g =
    let (w, b) = Ahead-Behind a in
    record {
      text = w;
      gap = gap;
      start_is = refl;
      splits = b.splits ∙ rw (e, append_assoc) refl;
      length_is = omega (arith, b.offset_is);
      gap_is = g;
    }

dollar_brace :
    (q : Position)
    → peek q ≡ b'$'
    → peek_next q ≡ b'{'
    → q.bytes ≡ codes "${" ++ (advance_char (advance_char q)).bytes
unfolding peek peek_next is_at_end advance_char
dollar_brace q h k = go q.bytes h k
  where
    go :
        (bs : Bytes)
        → first_byte bs ≡ b'$'
        → (if first_byte bs == 0 then 0 else first_byte (tail bs)) ≡ b'{'
        → bs ≡ codes "${" ++ tail (tail bs)
    go [] h k = ground arith
    go (c ∷ []) h k = ground arith
    go (c ∷ d ∷ cs) h k = ground arith

Scanned-HasText :
    {s : Position} {r : Position × Token}
    → is_at_end s ≡ false
    → Scanned (advance_char s) s r
    → (r.1.type ≡ tok_error) ⊎ HasText r.1 s r.0.bytes
unfolding error_token
Scanned-HasText h (made {q} type a) =
    inr (made-HasText _ q type [] q.bytes (Ahead-trans a (step h)) refl (inl refl))
Scanned-HasText h (opened {q} type a d b) =
    inr (
      made-HasText _ q type (codes "${") _ (Ahead-trans a (step h)) (dollar_brace q d b) (inr refl))
Scanned-HasText h (failed msg a) = inl refl

Scanned-place :
    {origin start : Position} {r : Position × Token}
    → Scanned origin start r
    → (r.1.line ≡ start.line) × (r.1.column ≡ start.column)
unfolding make_token error_token
Scanned-place (made type a) = (refl, refl)
Scanned-place (opened type a d b) = (refl, refl)
Scanned-place (failed msg a) = (refl, refl)

Lexed-IsSlice :
    (t : Tokenizer) (skipped : Bytes) (q : Position) (r : Tokenizer × Token)
    → Behind skipped t.position q
    → Lexed (record t { position = q }) r
    → IsSlice t r.0 r.1
unfolding make_token
Lexed-IsSlice t skipped q _ b (ended h) = record {
  skipped = skipped;
  start = q;
  start_behind = b;
  line_is = refl;
  column_is = refl;
  error_or_text = inr (made-HasText q q tok_eof [] q.bytes here refl (inl refl));
}
Lexed-IsSlice t skipped q _ b (scanned h s) = record {
  skipped = skipped;
  start = q;
  start_behind = b;
  line_is = (Scanned-place s).0;
  column_is = (Scanned-place s).1;
  error_or_text = Scanned-HasText h s;
}

-- A token carries the line and the column at which its text starts, and unless it is an error token
-- its text is the slice of the source from its start pointer on, of the length that it gives; the
-- state goes on behind that text, or behind the "${" that follows a template token.
pub tokenizer_next-IsSlice :
    (t : Tokenizer) {u : Tokenizer} {token : Token}
    → tokenizer_next t ≡ some (u, token)
    → IsSlice t u token
tokenizer_next-IsSlice t e =
    let n = rw e at (tokenizer_next-NextLexed t) in
    let (w, b) = Ahead-Behind n.skipped in Lexed-IsSlice t w n.bare _ b n.lexed_there
