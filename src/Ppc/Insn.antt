-- ===== src/Ppc/Insn.antt =====
-- decompiler/include/ppc.h: `PpcInsn`; decompiler/src/ppc/ppc_internal.h: the bit-field helpers.
-- A word is a number below 2 ^ 32. `>> k` is `/ 2 ^ k`, and `& ((1 << w) - 1)` is `% 2 ^ w`.
use calynda_for_wii.Base.{ℕ, ◌+◌, ◌-◌, ◌/◌, ◌%◌, ◌^◌, ◌==◌, if◌then◌else◌}
use calynda_for_wii.Base.Int.{ℤ, pos, to_int32}
use calynda_for_wii.Ppc.Op.{PpcOp, op_unknown}

pub record PpcInsn : Type 0 where
  pub op : PpcOp
  pub raw : ℕ
  pub addr : ℕ
  pub rd : ℕ
  pub ra : ℕ
  pub rb : ℕ
  pub imm : ℤ
  pub target : ℕ
  pub aa : ℕ
  pub lk : ℕ
  pub sh : ℕ
  pub mb : ℕ
  pub me : ℕ

-- `(uint8_t)x`
abbrev pub to_uint8 : ℕ → ℕ
to_uint8 x = x % 2 ^ 8

-- The bits `msb` to `lsb`, where 0 is the highest bit of the word.
abbrev pub ppc_bits : ℕ → ℕ → ℕ → ℕ
ppc_bits insn msb lsb = insn / 2 ^ (31 - lsb) % 2 ^ (lsb - msb + 1)

-- Where the sign bit is set, `v | ~mask` keeps the bits below `width` and sets the others.
abbrev pub ppc_sext : ℕ → ℕ → ℤ
ppc_sext v width =
    if v / 2 ^ (width - 1) % 2 == 1
    then to_int32 (v % 2 ^ width + (2 ^ 32 - 2 ^ width))
    else to_int32 v

-- What `memset` and the first assignments of `ppc_decode` make.
abbrev pub blank_insn : ℕ → ℕ → PpcInsn
blank_insn word vaddr = record {
  op = op_unknown;
  raw = word;
  addr = vaddr;
  rd = 0;
  ra = 0;
  rb = 0;
  imm = pos 0;
  target = 0;
  aa = 0;
  lk = 0;
  sh = 0;
  mb = 0;
  me = 0;
}
