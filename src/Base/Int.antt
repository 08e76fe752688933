-- ===== src/Base/Int.antt =====
-- Signed integers over the native numbers, and the conversions between `uint32_t` and `int32_t`.
use Prim.Native.Nat.{ℕ, ◌-◌, ◌%◌, ◌^◌}
use calynda_for_wii.Base.Tests.{ltb, if◌then◌else◌}

-- `negsuc n` is -(n + 1).
pub data ℤ : Type 0 where
  pos : ℕ → ℤ
  negsuc : ℕ → ℤ

-- `(int32_t)w` for a word of 32 bits, in two's complement.
abbrev pub to_int32 : ℕ → ℤ
to_int32 w = if ltb w (2 ^ 31) then pos w else negsuc (2 ^ 32 - 1 - w)

-- `(uint32_t)i`.
abbrev pub to_uint32 : ℤ → ℕ
to_uint32 (pos n) = n % 2 ^ 32
to_uint32 (negsuc n) = 2 ^ 32 - 1 - n % 2 ^ 32
