-- ===== src/Tokenizer/Scanned/Quoted.antt =====
-- The scanners of character and string literals stay in the text, and the loop of a string ends
-- within its fuel.
use calynda_for_wii.Base.{ℕ, zero, suc, ◌+◌, ◌<◌, arith, length}
use calynda_for_wii.Base.Returns.{Returns}
use calynda_for_wii.Tokenizer.Ahead.{Ahead-refl, Ahead-shorter, step-Ahead, Ahead, here}
use calynda_for_wii.Tokenizer.Literals.{
  scan_hex_digits, scan_escape, scan_char_end, scan_char, scan_string_loop, scan_string,
}
use calynda_for_wii.Tokenizer.Position.{Position, advance_char}
use calynda_for_wii.Tokenizer.Scanned.{Scanned, made_at, failed_at}
use calynda_for_wii.Tokenizer.TokenType.{tok_char_lit, tok_string_lit}

module _ (origin : Position) where
  scan_hex_digits-Ahead :
      (n : ℕ) (p : Position) → Ahead p origin → Ahead (scan_hex_digits n p).0 origin
  unfolding scan_hex_digits
  scan_hex_digits-Ahead zero p a = a
  scan_hex_digits-Ahead (suc n) p a =
      ground (arith, a, step-Ahead origin p, scan_hex_digits-Ahead n (advance_char p))

  pub scan_escape-Ahead : (p : Position) → Ahead p origin → Ahead (scan_escape p).0 origin
  unfolding scan_escape
  scan_escape-Ahead p a =
      ground (arith, a, step-Ahead origin p, scan_hex_digits-Ahead 4 (advance_char p))

pub scan_escape-Ahead_self : (p : Position) → Ahead (scan_escape p).0 p
scan_escape-Ahead_self p = scan_escape-Ahead p p here

module _ (origin start : Position) where
  scan_char_end-Scanned :
      (p : Position) → Ahead p origin → Scanned origin start (scan_char_end start p)
  unfolding scan_char_end
  scan_char_end-Scanned p a = ground (
    arith,
    failed_at origin start p "Unterminated char literal" a,
    step-Ahead origin p,
    made_at origin start (advance_char p) tok_char_lit,
  )

  pub scan_char-Scanned : (p : Position) → Ahead p origin → Scanned origin start (scan_char start p)
  unfolding scan_char
  scan_char-Scanned p a =
      let q = advance_char p in
      ground (
        arith,
        failed_at origin start p "Unterminated char literal" a,
        failed_at origin start p "Empty char literal" a,
        step-Ahead origin p,
        scan_char_end-Scanned q,
        scan_escape-Ahead origin q,
        failed_at origin start (scan_escape q).0 "Invalid escape in char literal",
        scan_char_end-Scanned (scan_escape q).0,
      )

  scan_string_loop-Scanned :
      (fuel : ℕ) (p : Position)
      → length p.bytes < fuel
      → Ahead p origin
      → Returns (Scanned origin start) (scan_string_loop fuel start p)
  unfolding scan_string_loop
  scan_string_loop-Scanned zero p lt a = elim lt [ ]
  scan_string_loop-Scanned (suc fuel) p lt a =
      let q = advance_char p in
      let e = (scan_escape q).0 in
      ground (
        arith,
        step-Ahead origin p,
        failed_at origin start p "Unterminated string literal" a,
        made_at origin start q tok_string_lit,
        scan_escape-Ahead origin q,
        failed_at origin start e "Invalid escape in string",
        Ahead-shorter p q,
        Ahead-shorter p e,
        scan_escape-Ahead_self q,
        Ahead-refl q,
        scan_string_loop-Scanned fuel q,
        scan_string_loop-Scanned fuel e,
      )

pub scan_string-Scanned :
    (origin start p : Position)
    → Ahead p origin
    → Returns (Scanned origin start) (scan_string start p)
unfolding scan_string
scan_string-Scanned origin start p a =
    scan_string_loop-Scanned origin start (length p.bytes + 1) p (omega arith) a
