-- ===== src/Tokenizer/TokenType.antt =====
-- compiler/src/tokenizer/tokenizer.h: the enumeration `TokenType`; tokenizer.c: `token_type_name`.
-- A constructor has the name of its enumerator in lower case.
use calynda_for_wii.Base.{String}

pub data TokenType : Type 0 where
  tok_eof tok_error tok_int_lit tok_float_lit tok_char_lit tok_string_lit : TokenType
  tok_template_start tok_template_middle tok_template_end tok_template_full : TokenType
  tok_identifier tok_package tok_import tok_start tok_boot tok_extern tok_var tok_public : TokenType
  tok_private tok_final tok_void tok_return tok_exit tok_throw tok_true tok_false : TokenType
  tok_null tok_export tok_as tok_internal tok_static tok_union tok_manual tok_arr : TokenType
  tok_malloc tok_calloc tok_realloc tok_free tok_int8 tok_int16 tok_int32 tok_int64 : TokenType
  tok_uint8 tok_uint16 tok_uint32 tok_uint64 tok_float32 tok_float64 tok_bool tok_char : TokenType
  tok_string tok_byte tok_sbyte tok_short tok_int tok_long tok_ulong tok_uint tok_float : TokenType
  tok_double tok_lparen tok_rparen tok_lbrace tok_rbrace tok_lbracket tok_rbracket : TokenType
  tok_semicolon tok_comma tok_dot tok_ellipsis tok_arrow tok_question tok_colon : TokenType
  tok_underscore tok_dollar_lbrace tok_assign tok_plus_assign tok_minus_assign : TokenType
  tok_star_assign tok_slash_assign tok_percent_assign tok_amp_assign tok_pipe_assign : TokenType
  tok_caret_assign tok_lshift_assign tok_rshift_assign tok_eq tok_neq tok_lt tok_gt : TokenType
  tok_lte tok_gte tok_logic_or tok_logic_and tok_pipe tok_amp tok_caret tok_tilde : TokenType
  tok_tilde_amp tok_tilde_caret tok_lshift tok_rshift tok_plus tok_plus_plus tok_minus : TokenType
  tok_minus_minus tok_star tok_slash tok_percent tok_bang tok_component tok_signal : TokenType
  tok_count : TokenType

-- The switch has a case for every enumerator, so its fallback "UNKNOWN" has no clause here.
unfoldable pub token_type_name : TokenType → String
token_type_name tok_eof = "EOF"
token_type_name tok_error = "ERROR"
token_type_name tok_int_lit = "INT_LIT"
token_type_name tok_float_lit = "FLOAT_LIT"
token_type_name tok_char_lit = "CHAR_LIT"
token_type_name tok_string_lit = "STRING_LIT"
token_type_name tok_template_start = "TEMPLATE_START"
token_type_name tok_template_middle = "TEMPLATE_MIDDLE"
token_type_name tok_template_end = "TEMPLATE_END"
token_type_name tok_template_full = "TEMPLATE_FULL"
token_type_name tok_identifier = "IDENTIFIER"
token_type_name tok_package = "PACKAGE"
token_type_name tok_import = "IMPORT"
token_type_name tok_start = "START"
token_type_name tok_boot = "BOOT"
token_type_name tok_extern = "EXTERN"
token_type_name tok_var = "VAR"
token_type_name tok_public = "PUBLIC"
token_type_name tok_private = "PRIVATE"
token_type_name tok_final = "FINAL"
token_type_name tok_void = "VOID"
token_type_name tok_return = "RETURN"
token_type_name tok_exit = "EXIT"
token_type_name tok_throw = "THROW"
token_type_name tok_true = "TRUE"
token_type_name tok_false = "FALSE"
token_type_name tok_null = "NULL"
token_type_name tok_export = "EXPORT"
token_type_name tok_as = "AS"
token_type_name tok_internal = "INTERNAL"
token_type_name tok_static = "STATIC"
token_type_name tok_union = "UNION"
token_type_name tok_manual = "MANUAL"
token_type_name tok_arr = "ARR"
token_type_name tok_malloc = "MALLOC"
token_type_name tok_calloc = "CALLOC"
token_type_name tok_realloc = "REALLOC"
token_type_name tok_free = "FREE"
token_type_name tok_int8 = "INT8"
token_type_name tok_int16 = "INT16"
token_type_name tok_int32 = "INT32"
token_type_name tok_int64 = "INT64"
token_type_name tok_uint8 = "UINT8"
token_type_name tok_uint16 = "UINT16"
token_type_name tok_uint32 = "UINT32"
token_type_name tok_uint64 = "UINT64"
token_type_name tok_float32 = "FLOAT32"
token_type_name tok_float64 = "FLOAT64"
token_type_name tok_bool = "BOOL"
token_type_name tok_char = "CHAR"
token_type_name tok_string = "STRING"
token_type_name tok_byte = "BYTE"
token_type_name tok_sbyte = "SBYTE"
token_type_name tok_short = "SHORT"
token_type_name tok_int = "INT"
token_type_name tok_long = "LONG"
token_type_name tok_ulong = "ULONG"
token_type_name tok_uint = "UINT"
token_type_name tok_float = "FLOAT"
token_type_name tok_double = "DOUBLE"
token_type_name tok_lparen = "LPAREN"
token_type_name tok_rparen = "RPAREN"
token_type_name tok_lbrace = "LBRACE"
token_type_name tok_rbrace = "RBRACE"
token_type_name tok_lbracket = "LBRACKET"
token_type_name tok_rbracket = "RBRACKET"
token_type_name tok_semicolon = "SEMICOLON"
token_type_name tok_comma = "COMMA"
token_type_name tok_dot = "DOT"
token_type_name tok_ellipsis = "ELLIPSIS"
token_type_name tok_arrow = "ARROW"
token_type_name tok_question = "QUESTION"
token_type_name tok_colon = "COLON"
token_type_name tok_underscore = "UNDERSCORE"
token_type_name tok_dollar_lbrace = "DOLLAR_LBRACE"
token_type_name tok_assign = "ASSIGN"
token_type_name tok_plus_assign = "PLUS_ASSIGN"
token_type_name tok_minus_assign = "MINUS_ASSIGN"
token_type_name tok_star_assign = "STAR_ASSIGN"
token_type_name tok_slash_assign = "SLASH_ASSIGN"
token_type_name tok_percent_assign = "PERCENT_ASSIGN"
token_type_name tok_amp_assign = "AMP_ASSIGN"
token_type_name tok_pipe_assign = "PIPE_ASSIGN"
token_type_name tok_caret_assign = "CARET_ASSIGN"
token_type_name tok_lshift_assign = "LSHIFT_ASSIGN"
token_type_name tok_rshift_assign = "RSHIFT_ASSIGN"
token_type_name tok_eq = "EQ"
token_type_name tok_neq = "NEQ"
token_type_name tok_lt = "LT"
token_type_name tok_gt = "GT"
token_type_name tok_lte = "LTE"
token_type_name tok_gte = "GTE"
token_type_name tok_logic_or = "LOGIC_OR"
token_type_name tok_logic_and = "LOGIC_AND"
token_type_name tok_pipe = "PIPE"
token_type_name tok_amp = "AMP"
token_type_name tok_caret = "CARET"
token_type_name tok_tilde = "TILDE"
token_type_name tok_tilde_amp = "TILDE_AMP"
token_type_name tok_tilde_caret = "TILDE_CARET"
token_type_name tok_lshift = "LSHIFT"
token_type_name tok_rshift = "RSHIFT"
token_type_name tok_plus = "PLUS"
token_type_name tok_plus_plus = "PLUS_PLUS"
token_type_name tok_minus = "MINUS"
token_type_name tok_minus_minus = "MINUS_MINUS"
token_type_name tok_star = "STAR"
token_type_name tok_slash = "SLASH"
token_type_name tok_percent = "PERCENT"
token_type_name tok_bang = "BANG"
token_type_name tok_component = "COMPONENT"
token_type_name tok_signal = "SIGNAL"
token_type_name tok_count = "COUNT"
