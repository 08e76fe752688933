-- ===== src/Tokenizer/Ahead.antt =====
-- Positions that the lexer reaches from another one by steps over characters of the text, never over
-- the NUL that ends it.
use calynda_for_wii.Base.{
  refl, ◌<◌, ◌≤◌, length, ◌+◌, ℕ, suc, Bool, true, false, [], ◌∷◌, ◌≡◌, ap, arith, ◌==◌, if_elim,
  Bytes, tail,
}
use calynda_for_wii.Tokenizer.Position.{
  first_byte, peek_next, advance_while, Position, is_at_end, peek, advance_char, advance_run,
}

-- `Ahead q p`: from `p` to `q`.
pub data Ahead (q : Position) : Position → Type 0 where
  here : Ahead q q
  more : {p : Position} → is_at_end p ≡ false → Ahead q (advance_char p) → Ahead q p

pub step : {p : Position} → is_at_end p ≡ false → Ahead (advance_char p) p
step h = more h here

pub Ahead-trans : {q r p : Position} → Ahead r q → Ahead q p → Ahead r p
Ahead-trans a here = a
Ahead-trans a (more h b) = more h (Ahead-trans a b)

-- Behind a character that is not NUL.
pub step_at : {p : Position} (c : ℕ) → (peek p == suc c) ≡ true → Ahead (advance_char p) p
unfolding peek is_at_end
step_at c h = more (ground arith) here

pub advance_run-Ahead :
    (test : ℕ → Bool) (bs : Bytes) {p : Position} → p.bytes ≡ bs → Ahead (advance_run test bs p) p
unfolding advance_run advance_char is_at_end
advance_run-Ahead test [] e = here
advance_run-Ahead test (c ∷ cs) {p} e =
    if_elim (λ r. Ahead r p) _ (λ h. more (ground arith) (advance_run-Ahead test cs (ap tail e)))
      (λ _. here)

-- The rest of the text shrinks by what the offset grows: no step leaves the text.
pub Ahead-length :
    {q p : Position}
    → Ahead q p
    → (q.offset + length q.bytes ≡ p.offset + length p.bytes) × (p.offset ≤ q.offset)
unfolding is_at_end advance_char
Ahead-length here = omega arith
Ahead-length (more {p} h a) = ground (arith, Ahead-length a)

-- A loop that consumes a character in each round has fewer bytes in front of it each time.
pub Ahead-shorter :
    (p q : Position)
    → is_at_end p ≡ false
    → Ahead q (advance_char p)
    → length q.bytes < length p.bytes
unfolding is_at_end advance_char
Ahead-shorter p q h a = ground (arith, Ahead-length a)

pub Ahead-refl : (p : Position) → Ahead p p
Ahead-refl p = here

module _ (start : Position) where
  pub step-Ahead :
      (p : Position) → is_at_end p ≡ false → Ahead p start → Ahead (advance_char p) start
  step-Ahead p h a = Ahead-trans (step h) a

  pub advance_while-Ahead :
      (test : ℕ → Bool) (p : Position) → Ahead p start → Ahead (advance_while test p) start
  advance_while-Ahead test p a = Ahead-trans (advance_run-Ahead test _ refl) a

-- A look at a character tells whether the text ends there.
pub is_at_end-peek : (p : Position) → is_at_end p ≡ (peek p == 0)
unfolding is_at_end peek
is_at_end-peek p = refl

pub is_at_end-peek_next :
    (p : Position) → is_at_end p ≡ false → is_at_end (advance_char p) ≡ (peek_next p == 0)
unfolding is_at_end peek_next advance_char
is_at_end-peek_next p h = ground arith

-- A run that takes its first character is ahead of the position behind it.
advance_run_first :
    (test : ℕ → Bool) (bs : Bytes) (p : Position)
    → p.bytes ≡ bs
    → is_at_end p ≡ false
    → test (peek p) ≡ true
    → Ahead (advance_run test bs p) (advance_char p)
unfolding advance_run is_at_end peek advance_char
advance_run_first test [] p e h t = ground arith
advance_run_first test (c ∷ cs) p e h t =
    ground (arith, advance_run-Ahead test cs {p = advance_char p} (ap tail e), ap first_byte e)

pub advance_while_first :
    (test : ℕ → Bool) (p : Position)
    → is_at_end p ≡ false
    → test (peek p) ≡ true
    → Ahead (advance_while test p) (advance_char p)
advance_while_first test p h t = advance_run_first test p.bytes p refl h t
