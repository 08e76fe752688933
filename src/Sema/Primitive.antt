-- ===== src/Sema/Primitive.antt =====
-- compiler/src/ast/ast_types.h, compiler/src/sema/type_checker_types.c and type_checker_names.c: the
-- primitive types, what the type checker asks of them, and their names.
use calynda_for_wii.Base.{false, leb, true, ◌||◌, ◌==◌, if◌then◌else◌, String, Bool, ℕ}

pub data AstPrimitiveType : Type 0 where
  primitive_int8 primitive_int16 primitive_int32 primitive_int64 primitive_uint8 primitive_uint16
        primitive_uint32 primitive_uint64 primitive_float32 primitive_float64 primitive_bool
        primitive_char primitive_string primitive_byte primitive_sbyte primitive_short primitive_int
        primitive_long primitive_ulong primitive_uint primitive_float primitive_double :
      AstPrimitiveType

-- The number that C gives to the enumerator.
unfoldable pub primitive_code : AstPrimitiveType → ℕ
primitive_code primitive_int8 = 0
primitive_code primitive_int16 = 1
primitive_code primitive_int32 = 2
primitive_code primitive_int64 = 3
primitive_code primitive_uint8 = 4
primitive_code primitive_uint16 = 5
primitive_code primitive_uint32 = 6
primitive_code primitive_uint64 = 7
primitive_code primitive_float32 = 8
primitive_code primitive_float64 = 9
primitive_code primitive_bool = 10
primitive_code primitive_char = 11
primitive_code primitive_string = 12
primitive_code primitive_byte = 13
primitive_code primitive_sbyte = 14
primitive_code primitive_short = 15
primitive_code primitive_int = 16
primitive_code primitive_long = 17
primitive_code primitive_ulong = 18
primitive_code primitive_uint = 19
primitive_code primitive_float = 20
primitive_code primitive_double = 21

unfoldable pub same_primitive : AstPrimitiveType → AstPrimitiveType → Bool
same_primitive p q = primitive_code p == primitive_code q

unfoldable pub tc_primitive_is_float : AstPrimitiveType → Bool
tc_primitive_is_float primitive =
    same_primitive primitive primitive_float32 || same_primitive primitive primitive_float64

unfoldable pub tc_primitive_is_integral : AstPrimitiveType → Bool
tc_primitive_is_integral primitive_int8 = true
tc_primitive_is_integral primitive_int16 = true
tc_primitive_is_integral primitive_int32 = true
tc_primitive_is_integral primitive_int64 = true
tc_primitive_is_integral primitive_uint8 = true
tc_primitive_is_integral primitive_uint16 = true
tc_primitive_is_integral primitive_uint32 = true
tc_primitive_is_integral primitive_uint64 = true
tc_primitive_is_integral primitive_float32 = true
tc_primitive_is_integral primitive_float64 = true
tc_primitive_is_integral primitive_bool = false
tc_primitive_is_integral primitive_char = true
tc_primitive_is_integral primitive_string = false
tc_primitive_is_integral primitive_byte = true
tc_primitive_is_integral primitive_sbyte = true
tc_primitive_is_integral primitive_short = true
tc_primitive_is_integral primitive_int = true
tc_primitive_is_integral primitive_long = true
tc_primitive_is_integral primitive_ulong = true
tc_primitive_is_integral primitive_uint = true
tc_primitive_is_integral primitive_float = true
tc_primitive_is_integral primitive_double = true

unfoldable pub tc_primitive_width : AstPrimitiveType → ℕ
tc_primitive_width primitive_int8 = 8
tc_primitive_width primitive_int16 = 16
tc_primitive_width primitive_int32 = 32
tc_primitive_width primitive_int64 = 64
tc_primitive_width primitive_uint8 = 8
tc_primitive_width primitive_uint16 = 16
tc_primitive_width primitive_uint32 = 32
tc_primitive_width primitive_uint64 = 64
tc_primitive_width primitive_float32 = 32
tc_primitive_width primitive_float64 = 64
tc_primitive_width primitive_bool = 0
tc_primitive_width primitive_char = 8
tc_primitive_width primitive_string = 0
tc_primitive_width primitive_byte = 8
tc_primitive_width primitive_sbyte = 8
tc_primitive_width primitive_short = 16
tc_primitive_width primitive_int = 32
tc_primitive_width primitive_long = 64
tc_primitive_width primitive_ulong = 64
tc_primitive_width primitive_uint = 32
tc_primitive_width primitive_float = 32
tc_primitive_width primitive_double = 64

unfoldable pub tc_primitive_is_signed : AstPrimitiveType → Bool
tc_primitive_is_signed primitive_int8 = true
tc_primitive_is_signed primitive_int16 = true
tc_primitive_is_signed primitive_int32 = true
tc_primitive_is_signed primitive_int64 = true
tc_primitive_is_signed primitive_uint8 = false
tc_primitive_is_signed primitive_uint16 = false
tc_primitive_is_signed primitive_uint32 = false
tc_primitive_is_signed primitive_uint64 = false
tc_primitive_is_signed primitive_float32 = true
tc_primitive_is_signed primitive_float64 = true
tc_primitive_is_signed primitive_bool = false
tc_primitive_is_signed primitive_char = true
tc_primitive_is_signed primitive_string = false
tc_primitive_is_signed primitive_byte = false
tc_primitive_is_signed primitive_sbyte = true
tc_primitive_is_signed primitive_short = true
tc_primitive_is_signed primitive_int = true
tc_primitive_is_signed primitive_long = true
tc_primitive_is_signed primitive_ulong = false
tc_primitive_is_signed primitive_uint = false
tc_primitive_is_signed primitive_float = true
tc_primitive_is_signed primitive_double = true

unfoldable pub tc_signed_primitive_for_width : ℕ → AstPrimitiveType
tc_signed_primitive_for_width width =
    if leb width 8
    then primitive_int8
    else if leb width 16
    then primitive_int16
    else if leb width 32
    then primitive_int32
    else primitive_int64

unfoldable pub tc_unsigned_primitive_for_width : ℕ → AstPrimitiveType
tc_unsigned_primitive_for_width width =
    if leb width 8
    then primitive_uint8
    else if leb width 16
    then primitive_uint16
    else if leb width 32
    then primitive_uint32
    else primitive_uint64

unfoldable pub tc_primitive_type_name : AstPrimitiveType → String
tc_primitive_type_name primitive_int8 = "int8"
tc_primitive_type_name primitive_int16 = "int16"
tc_primitive_type_name primitive_int32 = "int32"
tc_primitive_type_name primitive_int64 = "int64"
tc_primitive_type_name primitive_uint8 = "uint8"
tc_primitive_type_name primitive_uint16 = "uint16"
tc_primitive_type_name primitive_uint32 = "uint32"
tc_primitive_type_name primitive_uint64 = "uint64"
tc_primitive_type_name primitive_float32 = "float32"
tc_primitive_type_name primitive_float64 = "float64"
tc_primitive_type_name primitive_bool = "bool"
tc_primitive_type_name primitive_char = "char"
tc_primitive_type_name primitive_string = "string"
tc_primitive_type_name primitive_byte = "byte"
tc_primitive_type_name primitive_sbyte = "sbyte"
tc_primitive_type_name primitive_short = "short"
tc_primitive_type_name primitive_int = "int"
tc_primitive_type_name primitive_long = "long"
tc_primitive_type_name primitive_ulong = "ulong"
tc_primitive_type_name primitive_uint = "uint"
tc_primitive_type_name primitive_float = "float"
tc_primitive_type_name primitive_double = "double"
