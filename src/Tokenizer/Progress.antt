-- ===== src/Tokenizer/Progress.antt =====
-- The progress of `tokenizer_next` through the text.
use calynda_for_wii.Base.{
  ℕ, zero, suc, ◌+◌, ◌≤◌, ◌<◌, Option, some, ◌>>=◌, ◌≡◌, refl, ◌⊎◌, inl, inr, arith, length, Bytes,
}
use calynda_for_wii.Base.Returns.{Returns-value}
use calynda_for_wii.Tokenizer.Ahead.{
  is_at_end-peek_next, is_at_end-peek, step-Ahead, Ahead, Ahead-length, Ahead-trans, step,
  Ahead-shorter,
}
use calynda_for_wii.Tokenizer.Next.{tokenizer_next, tokenizer_init}
use calynda_for_wii.Tokenizer.Position.{Position, Token, Tokenizer, make_token}
use calynda_for_wii.Tokenizer.Scanned.{Scanned, made, opened, failed}
use calynda_for_wii.Tokenizer.Scanned.Whole.{
  Lexed, ended, scanned, NextLexed, tokenizer_next-NextLexed,
}
use calynda_for_wii.Tokenizer.TokenType.{tok_eof}

-- The "${" behind an opening token is text, too.
pub Scanned-Ahead :
    {origin start : Position} {r : Position × Token} → Scanned origin start r → Ahead r.0 origin
Scanned-Ahead (made type a) = a
Scanned-Ahead (failed msg a) = a
Scanned-Ahead (opened {q} type a h k) =
    step-Ahead _ _ (ground (arith, is_at_end-peek q, is_at_end-peek_next q))
      (step-Ahead _ q (ground (arith, is_at_end-peek q)) a)

-- What a call of `tokenizer_next` from state `t` did.
pub record Moved (t u : Tokenizer) (token : Token) : Type 0 where
  pub in_text :
      u.position.offset + length u.position.bytes ≡ t.position.offset + length t.position.bytes
  pub onwards : t.position.offset ≤ u.position.offset
  pub eof_or_shorter : (token.type ≡ tok_eof) ⊎ (length u.position.bytes < length t.position.bytes)

Lexed-Moved : (t : Tokenizer) (r : Tokenizer × Token) → Lexed t r → Moved t r.0 r.1
unfolding make_token
Lexed-Moved t _ (ended h) = record {
  in_text = refl;
  onwards = omega arith;
  eof_or_shorter = inl refl;
}
Lexed-Moved t _ (scanned {u} h s) =
    let a = Scanned-Ahead s in
    let b = Ahead-length (Ahead-trans a (step h)) in
    record {
      in_text = b.0;
      onwards = b.1;
      eof_or_shorter = inr (Ahead-shorter t.position u.position h a);
    }

NextLexed-Moved : (t : Tokenizer) (r : Tokenizer × Token) → NextLexed t r → Moved t r.0 r.1
NextLexed-Moved t r n =
    let m = Lexed-Moved (record t { position = n.bare }) r n.lexed_there in
    let b = Ahead-length n.skipped in
    record {
      in_text = omega (arith, m.in_text);
      onwards = omega (arith, m.onwards);
      eof_or_shorter = grind (arith, m.eof_or_shorter);
    }

-- From every state `tokenizer_next` returns, whatever the text holds: it never steps over the NUL
-- that ends the text, never goes back, and either returns the end-of-file token or leaves less text.
pub tokenizer_next_total :
    (t : Tokenizer)
    → (u : Tokenizer) × (token : Token) × (tokenizer_next t ≡ some (u, token)) × Moved t u token
tokenizer_next_total t =
    let (r, e, n) = Returns-value (NextLexed t) (tokenizer_next t) (tokenizer_next-NextLexed t) in
    (r.0, r.1, e, NextLexed-Moved t r n)

-- The token that the call number `n + 1` returns, with the state behind it.
pub nth_token : ℕ → Tokenizer → Option (Tokenizer × Token)
nth_token zero t = tokenizer_next t
nth_token (suc n) t = tokenizer_next t >>= λ r. nth_token n r.0

pub record EofWithin (calls : ℕ) (t : Tokenizer) : Type 0 where
  pub count : ℕ
  pub state : Tokenizer
  pub token : Token
  pub soon : count ≤ calls
  pub reached : nth_token count t ≡ some (state, token)
  pub is_eof : token.type ≡ tok_eof

later :
    (n : ℕ) (t u : Tokenizer) (token : Token)
    → tokenizer_next t ≡ some (u, token)
    → EofWithin n u
    → EofWithin (suc n) t
unfolding nth_token
later n t u token e w = record {
  count = suc w.count;
  state = w.state;
  token = w.token;
  soon = omega (arith, w.soon);
  reached = rw e w.reached;
  is_eof = w.is_eof;
}

now :
    (n : ℕ) (t u : Tokenizer) (token : Token)
    → tokenizer_next t ≡ some (u, token)
    → token.type ≡ tok_eof
    → EofWithin n t
unfolding nth_token
now n t u token e h = record {
  count = 0;
  state = u;
  token = token;
  soon = omega arith;
  reached = e;
  is_eof = h;
}

choose :
    (n : ℕ) (t u : Tokenizer) (token : Token)
    → tokenizer_next t ≡ some (u, token)
    → (token.type ≡ tok_eof) ⊎ (length u.position.bytes < length t.position.bytes)
    → (length u.position.bytes < length t.position.bytes → EofWithin n t)
    → EofWithin n t
choose n t u token e (inl eof) f = now n t u token e eof
choose n t u token e (inr less) f = f less

EofWithin-bytes : (n : ℕ) (t : Tokenizer) → length t.position.bytes ≤ n → EofWithin n t
EofWithin-bytes zero t h =
    let (u, token, e, m) = tokenizer_next_total t in
    choose zero t u token e m.eof_or_shorter (λ less. absurd (omega arith))
EofWithin-bytes (suc n) t h =
    let (u, token, e, m) = tokenizer_next_total t in
    choose (suc n) t u token e m.eof_or_shorter
      (λ less. later n t u token e (EofWithin-bytes n u (omega arith)))

-- Lexing a source of `n` bytes gives the end-of-file token after at most `n` other tokens.
pub tokenizer_next-EofWithin : (source : Bytes) → EofWithin (length source) (tokenizer_init source)
unfolding tokenizer_init
tokenizer_next-EofWithin source =
    EofWithin-bytes (length source) (tokenizer_init source) (omega arith)
