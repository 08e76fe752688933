-- ===== src/Ppc/Mnemonics.antt =====
-- decompiler/src/ppc/mnemonic.c: the mnemonics as names.
use text.Mathlib.Text.{◌==◌ as str_eq}
use calynda_for_wii.Base.{String, Option, some, none, List, [], ◌∷◌, ◌≡◌, refl, if◌then◌else◌}
use calynda_for_wii.Ppc.Op.{
  PpcOp, ppc_mnemonic, op_unknown, op_b, op_ba, op_bl, op_bla, op_bc, op_blr, op_bctr, op_addi,
  op_addis, op_mulli, op_cmpwi, op_ori, op_andi_dot, op_nop, op_lwz, op_stw, op_lbz, op_stb, op_lhz,
  op_sth, op_lmw, op_stmw, op_lfs, op_lfd, op_stfs, op_stfd, op_fmr, op_fneg, op_fadd, op_fsub,
  op_fmul, op_fdiv, op_mflr, op_mtlr, op_mfctr, op_mtctr, op_mr, op_rlwinm, op_rlwimi, op_rlwnm,
  op_cmpw, op_cmplw, op_cmplwi, op_mullw, op_mulhw, op_mulhwu, op_divw, op_divwu, op_lwzu, op_stwu,
  op_lbzu, op_stbu, op_lhzu, op_sthu, op_lha, op_lhau, op_lfsu, op_lfdu, op_stfsu, op_stfdu, op_and,
  op_or, op_xor, op_nand, op_nor, op_eqv, op_andc, op_orc, op_slw, op_srw, op_sraw, op_srawi,
  op_add, op_subf, op_neg, op_ps_add, op_ps_sub, op_ps_mul, op_ps_div, op_ps_madd, op_ps_msub,
  op_ps_mr, op_ps_neg, op_psq_l, op_psq_st, op_psq_lu, op_psq_stu,
}

-- Every enumerator, in the order of the source.
abbrev pub ppc_ops : List PpcOp
ppc_ops =
    op_unknown ∷ op_b ∷ op_ba ∷ op_bl ∷ op_bla ∷ op_bc ∷ op_blr ∷ op_bctr ∷ op_addi ∷ op_addis
    ∷ op_mulli ∷ op_cmpwi ∷ op_ori ∷ op_andi_dot ∷ op_nop ∷ op_lwz ∷ op_stw ∷ op_lbz ∷ op_stb
    ∷ op_lhz ∷ op_sth ∷ op_lmw ∷ op_stmw ∷ op_lfs ∷ op_lfd ∷ op_stfs ∷ op_stfd ∷ op_fmr ∷ op_fneg
    ∷ op_fadd ∷ op_fsub ∷ op_fmul ∷ op_fdiv ∷ op_mflr ∷ op_mtlr ∷ op_mfctr ∷ op_mtctr ∷ op_mr
    ∷ op_rlwinm ∷ op_rlwimi ∷ op_rlwnm ∷ op_cmpw ∷ op_cmplw ∷ op_cmplwi ∷ op_mullw ∷ op_mulhw
    ∷ op_mulhwu ∷ op_divw ∷ op_divwu ∷ op_lwzu ∷ op_stwu ∷ op_lbzu ∷ op_stbu ∷ op_lhzu ∷ op_sthu
    ∷ op_lha ∷ op_lhau ∷ op_lfsu ∷ op_lfdu ∷ op_stfsu ∷ op_stfdu ∷ op_and ∷ op_or ∷ op_xor ∷ op_nand
    ∷ op_nor ∷ op_eqv ∷ op_andc ∷ op_orc ∷ op_slw ∷ op_srw ∷ op_sraw ∷ op_srawi ∷ op_add ∷ op_subf
    ∷ op_neg ∷ op_ps_add ∷ op_ps_sub ∷ op_ps_mul ∷ op_ps_div ∷ op_ps_madd ∷ op_ps_msub ∷ op_ps_mr
    ∷ op_ps_neg ∷ op_psq_l ∷ op_psq_st ∷ op_psq_lu ∷ op_psq_stu ∷ []

-- The first enumerator with this name.
pub named : List PpcOp → String → Option PpcOp
named [] name = none
named (x ∷ xs) name = if str_eq (ppc_mnemonic x) name then some x else named xs name

-- No two enumerators share a name: the name of each leads back to it alone.
pub named-ppc_mnemonic : (x : PpcOp) → named ppc_ops (ppc_mnemonic x) ≡ some x
unfolding named ppc_mnemonic
named-ppc_mnemonic op_unknown = refl
named-ppc_mnemonic _ = refl
