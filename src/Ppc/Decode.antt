-- ===== src/Ppc/Decode.antt =====
-- decompiler/src/ppc/decode.c: the decoders by primary opcode, and `ppc_decode`. The C function
-- refuses a null `out`; here the record is always there. A decoder takes the record to fill and
-- returns it.
use calynda_for_wii.Base.{
  ◌/◌, ℕ, ◌+◌, ◌*◌, ◌%◌, ◌^◌, not, ◌&&◌, ◌||◌, Option, some, none, List, [], ◌∷◌, ◌==◌,
  if◌then◌else◌,
}
use calynda_for_wii.Base.Int.{ℤ, pos, to_uint32}
use calynda_for_wii.Ppc.DecodeExt.{
  set_dab, set_db, ppc_decode_mform, ppc_decode_psq, ppc_decode_opcode4, ppc_decode_op31_xform,
}
use calynda_for_wii.Ppc.Insn.{PpcInsn, to_uint8, ppc_bits, ppc_sext, blank_insn}
use calynda_for_wii.Ppc.Op.{
  PpcOp, op_addi, op_addis, op_andi_dot, op_b, op_ba, op_bc, op_bctr, op_bl, op_bla, op_blr,
  op_cmplwi, op_cmpwi, op_fadd, op_fdiv, op_fmr, op_fmul, op_fneg, op_fsub, op_lbz, op_lbzu, op_lfd,
  op_lfdu, op_lfs, op_lfsu, op_lha, op_lhau, op_lhz, op_lhzu, op_lmw, op_lwz, op_lwzu, op_mfctr,
  op_mflr, op_mr, op_mtctr, op_mtlr, op_mulli, op_nop, op_ori, op_rlwimi, op_rlwinm, op_rlwnm,
  op_stb, op_stbu, op_stfd, op_stfdu, op_stfs, op_stfsu, op_sth, op_sthu, op_stmw, op_stw, op_stwu,
}

unfoldable pub decode_spr : ℕ → ℕ
decode_spr insn = let field = ppc_bits insn 11 20 in field % 2 ^ 5 * 2 ^ 5 + field / 2 ^ 5 % 2 ^ 5

-- The target of a branch: `disp` itself, or counted from the address of the word.
abbrev pub branch_target : ℕ → ℕ → ℤ → ℕ
branch_target aa vaddr disp = if aa == 0 then (vaddr + to_uint32 disp) % 2 ^ 32 else to_uint32 disp

-- The operation of an I-form branch, by its absolute bit and its link bit.
abbrev pub iform_op : ℕ → ℕ → PpcOp
iform_op aa lk =
    if not (aa == 0)
    then if not (lk == 0) then op_bla else op_ba
    else if not (lk == 0)
    then op_bl
    else op_b

unfoldable pub decode_iform_branch : ℕ → ℕ → PpcInsn → PpcInsn
decode_iform_branch insn vaddr out =
    let disp = ppc_sext (ppc_bits insn 6 29 * 2 ^ 2 % 2 ^ 32) 26 in
    let aa = to_uint8 (ppc_bits insn 30 30) in
    let lk = to_uint8 (ppc_bits insn 31 31) in
    record out { aa = aa; lk = lk; target = branch_target aa vaddr disp; op = iform_op aa lk }

unfoldable pub decode_bform_branch : ℕ → ℕ → PpcInsn → PpcInsn
decode_bform_branch insn vaddr out =
    let disp = ppc_sext (ppc_bits insn 16 29 * 2 ^ 2 % 2 ^ 32) 16 in
    let aa = to_uint8 (ppc_bits insn 30 30) in
    record out {
      op = op_bc;
      rd = to_uint8 (ppc_bits insn 6 10);
      ra = to_uint8 (ppc_bits insn 11 15);
      aa = aa;
      lk = to_uint8 (ppc_bits insn 31 31);
      target = branch_target aa vaddr disp;
    }

unfoldable pub decode_opcode19 : ℕ → PpcInsn → PpcInsn
decode_opcode19 insn out =
    let xo = ppc_bits insn 21 30 in
    let bo = ppc_bits insn 6 10 in
    let bi = ppc_bits insn 11 15 in
    let lk = to_uint8 (ppc_bits insn 31 31) in
    let always = bo == 20 && (bi == 0 && lk == 0) in
    if xo == 16 && always
    then record out { lk = lk; op = op_blr }
    else if xo == 528 && always
    then record out { lk = lk; op = op_bctr }
    else record out { lk = lk }

-- `decode_dform_mem` has the same body.
unfoldable pub decode_dform_arith : ℕ → PpcOp → PpcInsn → PpcInsn
decode_dform_arith insn op out = record out {
  op = op;
  rd = to_uint8 (ppc_bits insn 6 10);
  ra = to_uint8 (ppc_bits insn 11 15);
  imm = ppc_sext (ppc_bits insn 16 31) 16;
}

abbrev pub decode_dform_mem : ℕ → PpcOp → PpcInsn → PpcInsn
decode_dform_mem = decode_dform_arith

unfoldable pub decode_ori : ℕ → PpcInsn → PpcInsn
decode_ori insn out =
    let rd = to_uint8 (ppc_bits insn 6 10) in
    let ra = to_uint8 (ppc_bits insn 11 15) in
    let imm = ppc_bits insn 16 31 in
    record out {
      rd = rd;
      ra = ra;
      imm = pos imm;
      op = if rd == 0 && (ra == 0 && imm == 0) then op_nop else op_ori;
    }

unfoldable pub decode_andi_dot : ℕ → PpcInsn → PpcInsn
decode_andi_dot insn out = record out {
  op = op_andi_dot;
  rd = to_uint8 (ppc_bits insn 6 10);
  ra = to_uint8 (ppc_bits insn 11 15);
  imm = pos (ppc_bits insn 16 31);
}

-- `cmpwi`, and in the switch `cmplwi`: with L = 1 the word is left unknown.
unfoldable pub decode_cmpi : ℕ → PpcInsn → PpcInsn
decode_cmpi insn out = if not (ppc_bits insn 10 10 == 0) then out else record out {
  op = op_cmpwi;
  rd = to_uint8 (ppc_bits insn 6 8);
  ra = to_uint8 (ppc_bits insn 11 15);
  imm = ppc_sext (ppc_bits insn 16 31) 16;
}

unfoldable pub decode_cmpli : ℕ → PpcInsn → PpcInsn
decode_cmpli insn out =
    if ppc_bits insn 10 10 == 0
    then record out {
      op = op_cmplwi;
      rd = to_uint8 (ppc_bits insn 6 8);
      ra = to_uint8 (ppc_bits insn 11 15);
      imm = pos (ppc_bits insn 16 31);
    }
    else out

-- `mfspr` and `mtspr` with the operations for the link register and the count register.
abbrev pub decode_move_spr : ℕ → PpcOp → PpcOp → PpcInsn → PpcInsn
decode_move_spr insn lr ctr out =
    let moved = record out { rd = to_uint8 (ppc_bits insn 6 10) } in
    if decode_spr insn == 8
    then record moved { op = lr }
    else if decode_spr insn == 9
    then record moved { op = ctr }
    else moved

unfoldable pub decode_opcode31 : ℕ → PpcInsn → PpcInsn
decode_opcode31 insn out =
    let xo = ppc_bits insn 21 30 in
    let rs = ppc_bits insn 6 10 in
    if xo == 339
    then decode_move_spr insn op_mflr op_mfctr out
    else if xo == 467
    then decode_move_spr insn op_mtlr op_mtctr out
    else if xo == 444 && (ppc_bits insn 31 31 == 0 && rs == ppc_bits insn 16 20)
    then record out { op = op_mr; rd = to_uint8 (ppc_bits insn 11 15); ra = to_uint8 rs }
    else ppc_decode_op31_xform insn out

unfoldable pub decode_opcode63 : ℕ → PpcInsn → PpcInsn
decode_opcode63 insn out =
    let xo = ppc_bits insn 21 30 in
    let frd = ppc_bits insn 6 10 in
    let fra = ppc_bits insn 11 15 in
    let frb = ppc_bits insn 16 20 in
    let frc = ppc_bits insn 21 25 in
    if xo == 72
    then set_db op_fmr frd frb out
    else if xo == 40
    then set_db op_fneg frd frb out
    else if xo == 21
    then set_dab op_fadd frd fra frb out
    else if xo == 20
    then set_dab op_fsub frd fra frb out
    else if xo == 25
    then set_dab op_fmul frd fra frc out
    else if xo == 18
    then set_dab op_fdiv frd fra frb out
    else out

-- The cases of the switch that call `decode_dform_arith` or `decode_dform_mem`.
abbrev pub dform_cases : List (ℕ × PpcOp)
dform_cases =
    (7, op_mulli)
    ∷ (14, op_addi)
    ∷ (15, op_addis)
    ∷ (32, op_lwz)
    ∷ (33, op_lwzu)
    ∷ (34, op_lbz)
    ∷ (35, op_lbzu)
    ∷ (36, op_stw)
    ∷ (37, op_stwu)
    ∷ (38, op_stb)
    ∷ (39, op_stbu)
    ∷ (40, op_lhz)
    ∷ (41, op_lhzu)
    ∷ (42, op_lha)
    ∷ (43, op_lhau)
    ∷ (44, op_sth)
    ∷ (45, op_sthu)
    ∷ (46, op_lmw)
    ∷ (47, op_stmw)
    ∷ (48, op_lfs)
    ∷ (49, op_lfsu)
    ∷ (50, op_lfd)
    ∷ (51, op_lfdu)
    ∷ (52, op_stfs)
    ∷ (53, op_stfsu)
    ∷ (54, op_stfd)
    ∷ (55, op_stfdu)
    ∷ []

unfoldable pub dform_op : List (ℕ × PpcOp) → ℕ → Option PpcOp
dform_op [] primary = none
dform_op ((k, op) ∷ table) primary = if primary == k then some op else dform_op table primary

abbrev pub decode_dform : Option PpcOp → ℕ → PpcInsn → PpcInsn
decode_dform none word out = out
decode_dform (some op) word out = decode_dform_mem word op out

-- The switch on the primary opcode.
unfoldable pub decode_primary : ℕ → ℕ → ℕ → PpcInsn → PpcInsn
decode_primary primary word vaddr out =
    if primary == 4
    then ppc_decode_opcode4 word out
    else if primary == 10
    then decode_cmpli word out
    else if primary == 11
    then decode_cmpi word out
    else if primary == 16
    then decode_bform_branch word vaddr out
    else if primary == 18
    then decode_iform_branch word vaddr out
    else if primary == 19
    then decode_opcode19 word out
    else if primary == 20
    then ppc_decode_mform word op_rlwimi out
    else if primary == 21
    then ppc_decode_mform word op_rlwinm out
    else if primary == 23
    then ppc_decode_mform word op_rlwnm out
    else if primary == 24
    then decode_ori word out
    else if primary == 28
    then decode_andi_dot word out
    else if primary == 31
    then decode_opcode31 word out
    else if primary == 56 || primary == 57 || primary == 60 || primary == 61
    then ppc_decode_psq word out
    else if primary == 63
    then decode_opcode63 word out
    else decode_dform (dform_op dform_cases primary) word out

unfoldable pub ppc_decode : ℕ → ℕ → PpcInsn
ppc_decode word vaddr = decode_primary (ppc_bits word 0 5) word vaddr (blank_insn word vaddr)
