-- ===== src/Tokenizer/Scanned/Template.antt =====
-- The scanner of a template stays in the text, and its loop ends within its fuel.
use calynda_for_wii.Base.{ℕ, zero, suc, ◌+◌, ◌<◌, arith, length}
use calynda_for_wii.Base.Returns.{Returns}
use calynda_for_wii.Tokenizer.Ahead.{Ahead-refl, Ahead, step-Ahead, Ahead-shorter}
use calynda_for_wii.Tokenizer.Literals.{scan_escape}
use calynda_for_wii.Tokenizer.Position.{Position, Tokenizer, Token, advance_char}
use calynda_for_wii.Tokenizer.Scanned.Quoted.{scan_escape-Ahead, scan_escape-Ahead_self}
use calynda_for_wii.Tokenizer.Scanned.{Scanned, made_at, failed_at, opened_at}
use calynda_for_wii.Tokenizer.Template.{scan_template_loop, scan_template_body, enter_interpolation}
use calynda_for_wii.Tokenizer.TokenType.{TokenType}

-- The same for a scanner that returns the whole state.
abbrev pub ScannedIn : Position → Position → Tokenizer × Token → Type 0
ScannedIn origin start (t, token) = Scanned origin start (t.position, token)

module _ (origin start : Position) (on_interp on_end : TokenType) where
  scan_template_loop-Scanned :
      (fuel : ℕ) (t : Tokenizer)
      → length t.position.bytes < fuel
      → Ahead t.position origin
      → Returns (ScannedIn origin start) (scan_template_loop fuel t start on_interp on_end)
  unfolding scan_template_loop enter_interpolation
  scan_template_loop-Scanned zero t lt a = elim lt [ ]
  scan_template_loop-Scanned (suc fuel) t lt a =
      let p = t.position in
      let q = advance_char p in
      let e = (scan_escape q).0 in
      ground (
        arith,
        step-Ahead origin p,
        scan_escape-Ahead origin q,
        failed_at origin start e "Invalid escape in template literal",
        failed_at origin start p "Unterminated template literal" a,
        failed_at origin start p "Template interpolation nesting too deep" a,
        made_at origin start q on_end,
        opened_at origin start p on_interp a,
        Ahead-shorter p q,
        Ahead-shorter p e,
        scan_escape-Ahead_self q,
        Ahead-refl q,
        scan_template_loop-Scanned fuel (record t { position = q }),
        scan_template_loop-Scanned fuel (record t { position = e }),
      )

  pub scan_template_body-Scanned :
      (t : Tokenizer)
      → Ahead t.position origin
      → Returns (ScannedIn origin start) (scan_template_body t start on_interp on_end)
  unfolding scan_template_body
  scan_template_body-Scanned t a =
      scan_template_loop-Scanned (length t.position.bytes + 1) t (omega arith) a
