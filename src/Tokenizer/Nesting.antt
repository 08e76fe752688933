-- ===== src/Tokenizer/Nesting.antt =====
-- The stack of interpolations and the array of its brace depths.
use calynda_for_wii.Base.{
  inr, inl, Option-cases, Bytes, ℕ, zero, suc, ◌+◌, ◌-◌, ◌≤◌, ◌<◌, Option, some, none, ◌≡◌, refl,
  arith, length, length-set,
}
use calynda_for_wii.Tokenizer.Literals.{scan_escape, scan_string}
use calynda_for_wii.Tokenizer.Next.{
  scan_token, tokenizer_next, tokenizer_init, advance_tokenizer, skip_whitespace,
}
use calynda_for_wii.Tokenizer.Position.{
  peek, Position, Token, Tokenizer, tokenizer_max_template_depth, advance_char,
}
use calynda_for_wii.Tokenizer.Punctuation.{brace_depth, count_brace, scan_punctuation, lift_result}
use calynda_for_wii.Tokenizer.Template.{enter_interpolation, scan_template_loop, scan_template_body}
use calynda_for_wii.Tokenizer.TokenType.{
  TokenType, tok_template_start, tok_template_full, tok_template_middle, tok_template_end,
}

-- Every index into the array of brace depths is within it.
abbrev pub IsNested : Tokenizer → Type 0
IsNested t =
    (t.template_depth ≤ tokenizer_max_template_depth)
    × (length t.interpolation_brace_depth ≡ tokenizer_max_template_depth)

-- A run that ends leaves the stack in order.
abbrev Keeps : Option (Tokenizer × Token) → Type 0
Keeps none = Unit
Keeps (some r) = IsNested r.0

enter_interpolation-IsNested :
    (t : Tokenizer)
    → IsNested t
    → t.template_depth < tokenizer_max_template_depth
    → IsNested (enter_interpolation t)
unfolding enter_interpolation
enter_interpolation-IsNested t h lt =
    (omega arith, omega (arith, length-set t.interpolation_brace_depth t.template_depth 0))

scan_template_loop-IsNested :
    (fuel : ℕ) (t : Tokenizer) (start : Position) (on_interp on_end : TokenType)
    → IsNested t
    → Keeps (scan_template_loop fuel t start on_interp on_end)
unfolding scan_template_loop
scan_template_loop-IsNested zero t start on_interp on_end h = tt
scan_template_loop-IsNested (suc fuel) t start on_interp on_end h =
    let q = advance_char t.position in
    ground (
      arith,
      enter_interpolation-IsNested t h,
      scan_template_loop-IsNested fuel (record t { position = q }) start on_interp on_end h,
      scan_template_loop-IsNested fuel (record t { position = (scan_escape q).0 }) start on_interp
          on_end h,
    )

count_brace-IsNested : (c : ℕ) (t : Tokenizer) → IsNested t → IsNested (count_brace c t)
unfolding count_brace
count_brace-IsNested c t h = ground (
  arith,
  length-set t.interpolation_brace_depth (t.template_depth - 1) (brace_depth t + 1),
  length-set t.interpolation_brace_depth (t.template_depth - 1) (brace_depth t - 1),
)

lift_result-IsNested :
    (t : Tokenizer) (o : Option (Position × Token)) → IsNested t → Keeps (lift_result t o)
lift_result-IsNested t none h = tt
lift_result-IsNested t (some r) h = h

scan_punctuation-IsNested :
    (c : ℕ) (start : Position) (t : Tokenizer) → IsNested t → Keeps (scan_punctuation c start t)
unfolding scan_punctuation scan_template_body
scan_punctuation-IsNested c start t h = ground (
  arith,
  lift_result-IsNested t (scan_string start t.position) h,
  scan_template_loop-IsNested (length t.position.bytes + 1) t start tok_template_start
      tok_template_full h,
  count_brace-IsNested c t h,
)

scan_token-IsNested : (t : Tokenizer) → IsNested t → Keeps (scan_token t)
unfolding scan_token scan_template_body
scan_token-IsNested t h =
    let u = advance_tokenizer t in
    let resumed = record u { template_depth = t.template_depth - 1 } in
    ground (
      arith,
      scan_template_loop-IsNested (length u.position.bytes + 1) resumed t.position
          tok_template_middle tok_template_end,
      scan_punctuation-IsNested (peek t.position) t.position u h,
    )

tokenizer_next-Keeps : (t : Tokenizer) → IsNested t → Keeps (tokenizer_next t)
unfolding tokenizer_next
tokenizer_next-Keeps t h = elim (Option-cases (skip_whitespace t.position)) [
  | inl e ↦ rw e tt
  | inr (p, e) ↦ rw e (scan_token-IsNested (record t { position = p }) h)
]

pub tokenizer_init-IsNested : (source : Bytes) → IsNested (tokenizer_init source)
unfolding tokenizer_init
tokenizer_init-IsNested source = (omega arith, refl)

-- The nesting of templates never grows beyond the array of brace depths, and the array keeps its
-- length: a token leaves a state in which the stack of interpolations is in order as it was.
pub tokenizer_next-IsNested :
    (t : Tokenizer) {u : Tokenizer} {token : Token}
    → IsNested t
    → tokenizer_next t ≡ some (u, token)
    → IsNested u
tokenizer_next-IsNested t h e = rw e at (tokenizer_next-Keeps t h)
