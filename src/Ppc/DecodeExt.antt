-- ===== src/Ppc/DecodeExt.antt =====
-- decompiler/src/ppc/decode_ext.c: rotate and mask, paired singles, and the register forms of
-- primary opcode 31. A decoder takes the record to fill and returns it.
use calynda_for_wii.Base.{ℕ, not, List, [], ◌∷◌, ◌==◌, if◌then◌else◌}
use calynda_for_wii.Ppc.Insn.{PpcInsn, to_uint8, ppc_bits, ppc_sext}
use calynda_for_wii.Ppc.Op.{
  PpcOp, op_add, op_and, op_andc, op_cmplw, op_cmpw, op_divw, op_divwu, op_eqv, op_mulhw, op_mulhwu,
  op_mullw, op_nand, op_neg, op_nor, op_or, op_orc, op_ps_add, op_ps_div, op_ps_madd, op_ps_mr,
  op_ps_msub, op_ps_mul, op_ps_neg, op_ps_sub, op_psq_l, op_psq_lu, op_psq_st, op_psq_stu, op_slw,
  op_sraw, op_srawi, op_srw, op_subf, op_xor,
}

unfoldable pub ppc_decode_mform : ℕ → PpcOp → PpcInsn → PpcInsn
ppc_decode_mform insn op out = record out {
  op = op;
  rd = to_uint8 (ppc_bits insn 6 10);
  ra = to_uint8 (ppc_bits insn 11 15);
  rb = to_uint8 (ppc_bits insn 16 20);
  sh = to_uint8 (ppc_bits insn 16 20);
  mb = to_uint8 (ppc_bits insn 21 25);
  me = to_uint8 (ppc_bits insn 26 30);
}

unfoldable pub decode_psq_dform : ℕ → PpcOp → PpcInsn → PpcInsn
decode_psq_dform insn op out = record out {
  op = op;
  rd = to_uint8 (ppc_bits insn 6 10);
  ra = to_uint8 (ppc_bits insn 11 15);
  sh = to_uint8 (ppc_bits insn 16 16);
  mb = to_uint8 (ppc_bits insn 17 19);
  imm = ppc_sext (ppc_bits insn 20 31) 12;
}

unfoldable pub ppc_decode_psq : ℕ → PpcInsn → PpcInsn
ppc_decode_psq insn out =
    let primary = ppc_bits insn 0 5 in
    if primary == 56
    then decode_psq_dform insn op_psq_l out
    else if primary == 57
    then decode_psq_dform insn op_psq_lu out
    else if primary == 60
    then decode_psq_dform insn op_psq_st out
    else if primary == 61
    then decode_psq_dform insn op_psq_stu out
    else out

-- The assignments of three registers, and of the two of a move.
abbrev pub set_dab : PpcOp → ℕ → ℕ → ℕ → PpcInsn → PpcInsn
set_dab op d a b out = record out { op = op; rd = to_uint8 d; ra = to_uint8 a; rb = to_uint8 b }

abbrev pub set_db : PpcOp → ℕ → ℕ → PpcInsn → PpcInsn
set_db op d b out = record out { op = op; rd = to_uint8 d; rb = to_uint8 b }

unfoldable pub ppc_decode_opcode4 : ℕ → PpcInsn → PpcInsn
ppc_decode_opcode4 insn out =
    let xo = ppc_bits insn 21 30 in
    let frd = ppc_bits insn 6 10 in
    let fra = ppc_bits insn 11 15 in
    let frb = ppc_bits insn 16 20 in
    let frc = ppc_bits insn 21 25 in
    let xo5 = ppc_bits insn 26 30 in
    if xo == 21
    then set_dab op_ps_add frd fra frb out
    else if xo == 20
    then set_dab op_ps_sub frd fra frb out
    else if xo == 18
    then set_dab op_ps_div frd fra frb out
    else if xo == 72
    then set_db op_ps_mr frd frb out
    else if xo == 40
    then set_db op_ps_neg frd frb out
    else if xo5 == 25
    then set_dab op_ps_mul frd fra frc out
    else if xo5 == 29
    then set_dab op_ps_madd frd fra frc out
    else if xo5 == 28
    then set_dab op_ps_msub frd fra frc out
    else out

-- `kOp31`
abbrev pub k_op31 : List (ℕ × PpcOp)
k_op31 =
    (0, op_cmpw)
    ∷ (32, op_cmplw)
    ∷ (235, op_mullw)
    ∷ (75, op_mulhw)
    ∷ (11, op_mulhwu)
    ∷ (491, op_divw)
    ∷ (459, op_divwu)
    ∷ (28, op_and)
    ∷ (444, op_or)
    ∷ (316, op_xor)
    ∷ (476, op_nand)
    ∷ (124, op_nor)
    ∷ (284, op_eqv)
    ∷ (60, op_andc)
    ∷ (412, op_orc)
    ∷ (24, op_slw)
    ∷ (536, op_srw)
    ∷ (792, op_sraw)
    ∷ (824, op_srawi)
    ∷ (266, op_add)
    ∷ (40, op_subf)
    ∷ (104, op_neg)
    ∷ []

-- A row that fits: what is filled in depends on the operation.
unfoldable pub fill_op31 : PpcOp → ℕ → PpcInsn → PpcInsn
fill_op31 op_cmpw insn out =
    if not (ppc_bits insn 10 10 == 0)
    then out
    else set_dab op_cmpw (ppc_bits insn 6 8) (ppc_bits insn 11 15) (ppc_bits insn 16 20) out
fill_op31 op_cmplw insn out =
    if not (ppc_bits insn 10 10 == 0)
    then out
    else set_dab op_cmplw (ppc_bits insn 6 8) (ppc_bits insn 11 15) (ppc_bits insn 16 20) out
fill_op31 op_srawi insn out = record out {
  op = op_srawi;
  rd = to_uint8 (ppc_bits insn 6 10);
  ra = to_uint8 (ppc_bits insn 11 15);
  sh = to_uint8 (ppc_bits insn 16 20);
}
fill_op31 op_neg insn out = record out {
  op = op_neg;
  rd = to_uint8 (ppc_bits insn 6 10);
  ra = to_uint8 (ppc_bits insn 11 15);
}
fill_op31 op insn out =
    set_dab op (ppc_bits insn 6 10) (ppc_bits insn 11 15) (ppc_bits insn 16 20) out

-- The loop over the rows from `table` on: the first row with this extended opcode decides.
unfoldable pub search_op31 : List (ℕ × PpcOp) → ℕ → PpcInsn → PpcInsn
search_op31 [] insn out = out
search_op31 ((xo, op) ∷ table) insn out =
    if xo == ppc_bits insn 21 30 then fill_op31 op insn out else search_op31 table insn out

-- The result code is not used by the caller.
unfoldable pub ppc_decode_op31_xform : ℕ → PpcInsn → PpcInsn
ppc_decode_op31_xform insn out = search_op31 k_op31 insn out
