-- ===== src/Tokenizer/Scanned.antt =====
-- What a scanner of the lexer returns: a token that starts at `start`, and a position that it reaches
-- from `origin` by steps over characters of the text.
mod Numbers
mod Quoted
mod Operators
mod Template
pub mod Whole
use calynda_for_wii.Base.{
  Bool, true, false, not, ◌&&◌, ◌||◌, ◌≡◌, refl, arith, ◌==◌, if◌then◌else◌, if_elim, String,
}
use calynda_for_wii.Tokenizer.Ahead.{Ahead, here, more, step, Ahead-trans, advance_run-Ahead}
use calynda_for_wii.Tokenizer.Position.{
  Position, Token, is_at_end, peek, peek_next, advance_char, advance_while, make_token, error_token,
}
use calynda_for_wii.Tokenizer.TokenType.{TokenType}

pub data Scanned (origin start : Position) : Position × Token → Type 0 where
  -- a token that ends at the position
  made :
      {q : Position} (type : TokenType)
      → Ahead q origin
      → Scanned origin start (q, make_token q type start)
  -- a token that ends at the "${" in front of the position
  opened :
      {q : Position} (type : TokenType)
      → Ahead q origin
      → peek q ≡ b'$'
      → peek_next q ≡ b'{'
      → Scanned origin start (advance_char (advance_char q), make_token q type start)
  -- an error token
  failed :
      {q : Position} (msg : String)
      → Ahead q origin
      → Scanned origin start (q, error_token msg start)

-- The constructors with every value written, for the tactics.
module _ (origin start q : Position) where
  pub made_at :
      (type : TokenType) → Ahead q origin → Scanned origin start (q, make_token q type start)
  made_at type a = made type a

  pub failed_at : (msg : String) → Ahead q origin → Scanned origin start (q, error_token msg start)
  failed_at msg a = failed msg a

  pub opened_at :
      (type : TokenType)
      → Ahead q origin
      → peek q ≡ b'$'
      → peek_next q ≡ b'{'
      → Scanned origin start (advance_char (advance_char q), make_token q type start)
  opened_at type a h k = opened type a h k
