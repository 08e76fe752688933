-- ===== src/Tokenizer/Template.antt =====
-- compiler/src/tokenizer/tokenizer_literals.c: `tokenizer_scan_template_body`.
-- The loop runs on fuel, one unit for a round; `none` says that the fuel ran out.
use calynda_for_wii.Base.{
  ℕ, zero, suc, ◌+◌, ◌&&◌, Option, none, some, ◌==◌, leb, if◌then◌else◌, length, set,
}
use calynda_for_wii.Tokenizer.Literals.{scan_escape}
use calynda_for_wii.Tokenizer.Position.{
  Position, Token, Tokenizer, tokenizer_max_template_depth, peek, peek_next, is_at_end,
  advance_char, make_token, error_token,
}
use calynda_for_wii.Tokenizer.TokenType.{TokenType}

-- The entry into an interpolation, behind "${": its brace depth starts at 0.
unfoldable pub enter_interpolation : Tokenizer → Tokenizer
enter_interpolation t = record t {
  position = advance_char (advance_char t.position);
  interpolation_brace_depth = set t.interpolation_brace_depth t.template_depth 0;
  template_depth = t.template_depth + 1;
}

unfoldable pub scan_template_loop :
    ℕ → Tokenizer → Position → TokenType → TokenType → Option (Tokenizer × Token)
scan_template_loop zero t start on_interp on_end = none
scan_template_loop (suc fuel) t start on_interp on_end =
    let p = t.position in
    let (q, valid) = scan_escape (advance_char p) in
    let escaped = scan_template_loop fuel (record t { position = q }) start on_interp on_end in
    let plain =
      scan_template_loop fuel (record t { position = advance_char p }) start on_interp on_end in
    if is_at_end p
    then some (t, error_token "Unterminated template literal" start)
    else if peek p == b'\\'
    then if valid
      then escaped
      else some (record t { position = q }, error_token "Invalid escape in template literal" start)
    else if peek p == b'$' && peek_next p == b'{'
    then if leb tokenizer_max_template_depth t.template_depth
      then some (t, error_token "Template interpolation nesting too deep" start)
      else some (enter_interpolation t, make_token p on_interp start)
    else if peek p == b'`'
    then some (record t { position = advance_char p }, make_token (advance_char p) on_end start)
    else plain

unfoldable pub scan_template_body :
    Tokenizer → Position → TokenType → TokenType → Option (Tokenizer × Token)
scan_template_body t = scan_template_loop (length t.position.bytes + 1) t
