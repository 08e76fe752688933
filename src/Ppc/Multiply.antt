-- ===== src/Ppc/Multiply.antt =====
-- decompiler/src/ppc/decode.c: the float multiplication of `decode_opcode63`.
use calynda_for_wii.Base.{ℕ, ◌+◌, ◌*◌, ◌^◌, ◌<◌, ◌==◌, if◌then◌else◌, arith, ◌≡◌}
use calynda_for_wii.Ppc.Decode.{decode_opcode63, decode_primary, ppc_decode}
use calynda_for_wii.Ppc.Insn.{ppc_bits}
use calynda_for_wii.Ppc.Op.{op_unknown, op_fmul}

-- A-form: `fmul frD, frA, frC` has the extended opcode 25 in five bits, and frC above them.
abbrev pub fmul_word : ℕ → ℕ → ℕ → ℕ → ℕ
fmul_word frd fra frc rc = 63 * 2 ^ 26 + frd * 2 ^ 21 + fra * 2 ^ 16 + frc * 2 ^ 6 + 25 * 2 + rc

fmul_fields :
    (frd fra frc rc : ℕ)
    → frd < 32
    → fra < 32
    → frc < 32
    → rc < 2
    → (ppc_bits (fmul_word frd fra frc rc) 0 5 ≡ 63)
      × (ppc_bits (fmul_word frd fra frc rc) 21 30 ≡ frc * 32 + 25)
fmul_fields frd fra frc rc h1 h2 h3 h4 = omega arith

opcode63_op :
    (w vaddr frc : ℕ)
    → ppc_bits w 0 5 ≡ 63
    → ppc_bits w 21 30 ≡ frc * 32 + 25
    → (ppc_decode w vaddr).op ≡ (if frc == 0 then op_fmul else op_unknown)
unfolding ppc_decode decode_primary decode_opcode63
opcode63_op w vaddr frc f1 f2 = rw (f1, f2) (ground arith)

-- The decoder compares ten bits where the instruction has five: a multiplication is recognised
-- only when its third operand is register 0, and any other is left unknown.
pub ppc_decode-fmul_word :
    (frd fra frc rc vaddr : ℕ)
    → frd < 32
    → fra < 32
    → frc < 32
    → rc < 2
    → (ppc_decode (fmul_word frd fra frc rc) vaddr).op ≡ (if frc == 0 then op_fmul else op_unknown)
ppc_decode-fmul_word frd fra frc rc vaddr h1 h2 h3 h4 =
    let (f1, f2) = fmul_fields frd fra frc rc h1 h2 h3 h4 in
    opcode63_op (fmul_word frd fra frc rc) vaddr frc f1 f2
