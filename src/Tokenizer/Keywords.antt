-- ===== src/Tokenizer/Keywords.antt =====
-- compiler/src/tokenizer/tokenizer_keywords.c: the keyword table, identifiers and keywords.
use calynda_for_wii.Base.{
  ℕ, ◌-◌, Bool, ◌&&◌, ◌||◌, List, [], ◌∷◌, ◌==◌, if◌then◌else◌, Bytes, length, take, codes,
  bytes_eq,
}
use calynda_for_wii.Tokenizer.Position.{
  Position, Token, first_byte, is_alnum, advance_while, make_token,
}
use calynda_for_wii.Tokenizer.TokenType.{
  TokenType, tok_identifier, tok_underscore, tok_package, tok_import, tok_start, tok_boot,
  tok_extern, tok_var, tok_public, tok_private, tok_final, tok_void, tok_return, tok_exit,
  tok_throw, tok_true, tok_false, tok_null, tok_export, tok_as, tok_internal, tok_static, tok_union,
  tok_manual, tok_arr, tok_malloc, tok_calloc, tok_realloc, tok_free, tok_int8, tok_int16,
  tok_int32, tok_uint8, tok_uint16, tok_uint32, tok_float32, tok_bool, tok_char, tok_string,
  tok_byte, tok_sbyte, tok_short, tok_int, tok_uint, tok_float, tok_component, tok_signal,
}

-- The rows of the table, without the NULL row that ends it.
abbrev pub keywords : List (Bytes × TokenType)
keywords =
    (codes "package", tok_package)
    ∷ (codes "import", tok_import)
    ∷ (codes "start", tok_start)
    ∷ (codes "boot", tok_boot)
    ∷ (codes "extern", tok_extern)
    ∷ (codes "var", tok_var)
    ∷ (codes "public", tok_public)
    ∷ (codes "private", tok_private)
    ∷ (codes "final", tok_final)
    ∷ (codes "void", tok_void)
    ∷ (codes "return", tok_return)
    ∷ (codes "exit", tok_exit)
    ∷ (codes "throw", tok_throw)
    ∷ (codes "true", tok_true)
    ∷ (codes "false", tok_false)
    ∷ (codes "null", tok_null)
    ∷ (codes "export", tok_export)
    ∷ (codes "as", tok_as)
    ∷ (codes "internal", tok_internal)
    ∷ (codes "static", tok_static)
    ∷ (codes "union", tok_union)
    ∷ (codes "manual", tok_manual)
    ∷ (codes "arr", tok_arr)
    ∷ (codes "malloc", tok_malloc)
    ∷ (codes "calloc", tok_calloc)
    ∷ (codes "realloc", tok_realloc)
    ∷ (codes "free", tok_free)
    ∷ (codes "int8", tok_int8)
    ∷ (codes "int16", tok_int16)
    ∷ (codes "int32", tok_int32)
    ∷ (codes "uint8", tok_uint8)
    ∷ (codes "uint16", tok_uint16)
    ∷ (codes "uint32", tok_uint32)
    ∷ (codes "float32", tok_float32)
    ∷ (codes "bool", tok_bool)
    ∷ (codes "char", tok_char)
    ∷ (codes "string", tok_string)
    ∷ (codes "byte", tok_byte)
    ∷ (codes "sbyte", tok_sbyte)
    ∷ (codes "short", tok_short)
    ∷ (codes "int", tok_int)
    ∷ (codes "uint", tok_uint)
    ∷ (codes "float", tok_float)
    ∷ (codes "component", tok_component)
    ∷ (codes "signal", tok_signal)
    ∷ []

-- The loop over the rows from `table` on.
unfoldable pub check_keyword_in : List (Bytes × TokenType) → Bytes → ℕ → TokenType
check_keyword_in [] start len = tok_identifier
check_keyword_in ((text, type) ∷ table) start len =
    if length text == len && bytes_eq text (take len start)
    then type
    else check_keyword_in table start len

unfoldable pub check_keyword : Bytes → ℕ → TokenType
check_keyword = check_keyword_in keywords

unfoldable pub is_identifier_byte : ℕ → Bool
is_identifier_byte c = is_alnum c || c == b'_'

unfoldable pub scan_identifier : Position → Position → Position × Token
scan_identifier start p =
    let q = advance_while is_identifier_byte p in
    let len = q.offset - start.offset in
    if len == 1 && first_byte start.bytes == b'_'
    then (q, make_token q tok_underscore start)
    else (q, make_token q (check_keyword start.bytes len) start)
