-- ===== src/Tokenizer/Names.antt =====
-- compiler/src/tokenizer/tokenizer.c: the names of the token types.
use text.Mathlib.Text.{◌==◌ as str_eq}
use calynda_for_wii.Base.{String, Option, some, none, List, [], ◌∷◌, ◌≡◌, refl, if◌then◌else◌}
use calynda_for_wii.Tokenizer.TokenType.{
  TokenType, token_type_name, tok_eof, tok_error, tok_int_lit, tok_float_lit, tok_char_lit,
  tok_string_lit, tok_template_start, tok_template_middle, tok_template_end, tok_template_full,
  tok_identifier, tok_package, tok_import, tok_start, tok_boot, tok_extern, tok_var, tok_public,
  tok_private, tok_final, tok_void, tok_return, tok_exit, tok_throw, tok_true, tok_false, tok_null,
  tok_export, tok_as, tok_internal, tok_static, tok_union, tok_manual, tok_arr, tok_malloc,
  tok_calloc, tok_realloc, tok_free, tok_int8, tok_int16, tok_int32, tok_int64, tok_uint8,
  tok_uint16, tok_uint32, tok_uint64, tok_float32, tok_float64, tok_bool, tok_char, tok_string,
  tok_byte, tok_sbyte, tok_short, tok_int, tok_long, tok_ulong, tok_uint, tok_float, tok_double,
  tok_lparen, tok_rparen, tok_lbrace, tok_rbrace, tok_lbracket, tok_rbracket, tok_semicolon,
  tok_comma, tok_dot, tok_ellipsis, tok_arrow, tok_question, tok_colon, tok_underscore,
  tok_dollar_lbrace, tok_assign, tok_plus_assign, tok_minus_assign, tok_star_assign,
  tok_slash_assign, tok_percent_assign, tok_amp_assign, tok_pipe_assign, tok_caret_assign,
  tok_lshift_assign, tok_rshift_assign, tok_eq, tok_neq, tok_lt, tok_gt, tok_lte, tok_gte,
  tok_logic_or, tok_logic_and, tok_pipe, tok_amp, tok_caret, tok_tilde, tok_tilde_amp,
  tok_tilde_caret, tok_lshift, tok_rshift, tok_plus, tok_plus_plus, tok_minus, tok_minus_minus,
  tok_star, tok_slash, tok_percent, tok_bang, tok_component, tok_signal, tok_count,
}

-- Every enumerator, in the order of the source.
abbrev token_types : List TokenType
token_types =
    tok_eof ∷ tok_error ∷ tok_int_lit ∷ tok_float_lit ∷ tok_char_lit ∷ tok_string_lit
    ∷ tok_template_start ∷ tok_template_middle ∷ tok_template_end ∷ tok_template_full
    ∷ tok_identifier ∷ tok_package ∷ tok_import ∷ tok_start ∷ tok_boot ∷ tok_extern ∷ tok_var
    ∷ tok_public ∷ tok_private ∷ tok_final ∷ tok_void ∷ tok_return ∷ tok_exit ∷ tok_throw ∷ tok_true
    ∷ tok_false ∷ tok_null ∷ tok_export ∷ tok_as ∷ tok_internal ∷ tok_static ∷ tok_union
    ∷ tok_manual ∷ tok_arr ∷ tok_malloc ∷ tok_calloc ∷ tok_realloc ∷ tok_free ∷ tok_int8 ∷ tok_int16
    ∷ tok_int32 ∷ tok_int64 ∷ tok_uint8 ∷ tok_uint16 ∷ tok_uint32 ∷ tok_uint64 ∷ tok_float32
    ∷ tok_float64 ∷ tok_bool ∷ tok_char ∷ tok_string ∷ tok_byte ∷ tok_sbyte ∷ tok_short ∷ tok_int
    ∷ tok_long ∷ tok_ulong ∷ tok_uint ∷ tok_float ∷ tok_double ∷ tok_lparen ∷ tok_rparen
    ∷ tok_lbrace ∷ tok_rbrace ∷ tok_lbracket ∷ tok_rbracket ∷ tok_semicolon ∷ tok_comma ∷ tok_dot
    ∷ tok_ellipsis ∷ tok_arrow ∷ tok_question ∷ tok_colon ∷ tok_underscore ∷ tok_dollar_lbrace
    ∷ tok_assign ∷ tok_plus_assign ∷ tok_minus_assign ∷ tok_star_assign ∷ tok_slash_assign
    ∷ tok_percent_assign ∷ tok_amp_assign ∷ tok_pipe_assign ∷ tok_caret_assign ∷ tok_lshift_assign
    ∷ tok_rshift_assign ∷ tok_eq ∷ tok_neq ∷ tok_lt ∷ tok_gt ∷ tok_lte ∷ tok_gte ∷ tok_logic_or
    ∷ tok_logic_and ∷ tok_pipe ∷ tok_amp ∷ tok_caret ∷ tok_tilde ∷ tok_tilde_amp ∷ tok_tilde_caret
    ∷ tok_lshift ∷ tok_rshift ∷ tok_plus ∷ tok_plus_plus ∷ tok_minus ∷ tok_minus_minus ∷ tok_star
    ∷ tok_slash ∷ tok_percent ∷ tok_bang ∷ tok_component ∷ tok_signal ∷ tok_count ∷ []

-- The first enumerator with this name.
pub named : List TokenType → String → Option TokenType
named [] name = none
named (x ∷ xs) name = if str_eq (token_type_name x) name then some x else named xs name

-- No two enumerators share a name: the name of each leads back to it alone.
named-token_type_name : (x : TokenType) → named token_types (token_type_name x) ≡ some x
unfolding named token_type_name
named-token_type_name tok_eof = refl
named-token_type_name _ = refl
