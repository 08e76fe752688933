-- ===== src/Sema/PrimitiveToken.antt =====
-- compiler/src/parser/parser_lookahead.c: the tokens that name primitive types.
use calynda_for_wii.Base.{false, true, Bool}
use calynda_for_wii.Sema.Primitive.{
  primitive_string, primitive_double, primitive_float, primitive_uint, primitive_ulong,
  primitive_long, primitive_int, primitive_short, primitive_sbyte, primitive_byte, primitive_char,
  primitive_bool, primitive_float64, primitive_float32, primitive_uint64, primitive_uint32,
  primitive_uint16, primitive_uint8, primitive_int64, primitive_int32, primitive_int16,
  primitive_int8, AstPrimitiveType,
}
use calynda_for_wii.Tokenizer.TokenType.{
  TokenType, tok_int8, tok_int16, tok_int32, tok_int64, tok_uint8, tok_uint16, tok_uint32,
  tok_uint64, tok_float32, tok_float64, tok_bool, tok_char, tok_string, tok_byte, tok_sbyte,
  tok_short, tok_int, tok_long, tok_ulong, tok_uint, tok_float, tok_double,
}

unfoldable pub is_primitive_type_token : TokenType → Bool
is_primitive_type_token tok_int8 = true
is_primitive_type_token tok_int16 = true
is_primitive_type_token tok_int32 = true
is_primitive_type_token tok_int64 = true
is_primitive_type_token tok_uint8 = true
is_primitive_type_token tok_uint16 = true
is_primitive_type_token tok_uint32 = true
is_primitive_type_token tok_uint64 = true
is_primitive_type_token tok_float32 = true
is_primitive_type_token tok_float64 = true
is_primitive_type_token tok_bool = true
is_primitive_type_token tok_char = true
is_primitive_type_token tok_string = true
is_primitive_type_token tok_byte = true
is_primitive_type_token tok_sbyte = true
is_primitive_type_token tok_short = true
is_primitive_type_token tok_int = true
is_primitive_type_token tok_long = true
is_primitive_type_token tok_ulong = true
is_primitive_type_token tok_uint = true
is_primitive_type_token tok_float = true
is_primitive_type_token tok_double = true
is_primitive_type_token _ = false

unfoldable pub primitive_type_from_token : TokenType → AstPrimitiveType
primitive_type_from_token tok_int8 = primitive_int8
primitive_type_from_token tok_int16 = primitive_int16
primitive_type_from_token tok_int32 = primitive_int32
primitive_type_from_token tok_int64 = primitive_int64
primitive_type_from_token tok_uint8 = primitive_uint8
primitive_type_from_token tok_uint16 = primitive_uint16
primitive_type_from_token tok_uint32 = primitive_uint32
primitive_type_from_token tok_uint64 = primitive_uint64
primitive_type_from_token tok_float32 = primitive_float32
primitive_type_from_token tok_float64 = primitive_float64
primitive_type_from_token tok_bool = primitive_bool
primitive_type_from_token tok_char = primitive_char
primitive_type_from_token tok_byte = primitive_byte
primitive_type_from_token tok_sbyte = primitive_sbyte
primitive_type_from_token tok_short = primitive_short
primitive_type_from_token tok_int = primitive_int
primitive_type_from_token tok_long = primitive_long
primitive_type_from_token tok_ulong = primitive_ulong
primitive_type_from_token tok_uint = primitive_uint
primitive_type_from_token tok_float = primitive_float
primitive_type_from_token tok_double = primitive_double
primitive_type_from_token _ = primitive_string
