-- ===== src/Ppc/Op.antt =====
-- decompiler/include/ppc.h: the enumeration `PpcOp`; decompiler/src/ppc/mnemonic.c: `ppc_mnemonic`.
-- A constructor has the name of its enumerator behind "PPC_", in lower case.
use calynda_for_wii.Base.{String}

pub data PpcOp : Type 0 where
  op_unknown op_b op_ba op_bl op_bla op_bc op_blr op_bctr op_addi op_addis op_mulli : PpcOp
  op_cmpwi op_ori op_andi_dot op_nop op_lwz op_stw op_lbz op_stb op_lhz op_sth op_lmw : PpcOp
  op_stmw op_lfs op_lfd op_stfs op_stfd op_fmr op_fneg op_fadd op_fsub op_fmul op_fdiv : PpcOp
  op_mflr op_mtlr op_mfctr op_mtctr op_mr op_rlwinm op_rlwimi op_rlwnm op_cmpw op_cmplw : PpcOp
  op_cmplwi op_mullw op_mulhw op_mulhwu op_divw op_divwu op_lwzu op_stwu op_lbzu op_stbu : PpcOp
  op_lhzu op_sthu op_lha op_lhau op_lfsu op_lfdu op_stfsu op_stfdu op_and op_or op_xor : PpcOp
  op_nand op_nor op_eqv op_andc op_orc op_slw op_srw op_sraw op_srawi op_add op_subf : PpcOp
  op_neg op_ps_add op_ps_sub op_ps_mul op_ps_div op_ps_madd op_ps_msub op_ps_mr : PpcOp
  op_ps_neg op_psq_l op_psq_st op_psq_lu op_psq_stu : PpcOp

-- The switch has a case for every enumerator, so its fallback "?" has no clause here.
unfoldable pub ppc_mnemonic : PpcOp → String
ppc_mnemonic op_unknown = ".long"
ppc_mnemonic op_b = "b"
ppc_mnemonic op_ba = "ba"
ppc_mnemonic op_bl = "bl"
ppc_mnemonic op_bla = "bla"
ppc_mnemonic op_bc = "bc"
ppc_mnemonic op_blr = "blr"
ppc_mnemonic op_bctr = "bctr"
ppc_mnemonic op_addi = "addi"
ppc_mnemonic op_addis = "addis"
ppc_mnemonic op_mulli = "mulli"
ppc_mnemonic op_cmpwi = "cmpwi"
ppc_mnemonic op_ori = "ori"
ppc_mnemonic op_andi_dot = "andi."
ppc_mnemonic op_nop = "nop"
ppc_mnemonic op_lwz = "lwz"
ppc_mnemonic op_stw = "stw"
ppc_mnemonic op_lbz = "lbz"
ppc_mnemonic op_stb = "stb"
ppc_mnemonic op_lhz = "lhz"
ppc_mnemonic op_sth = "sth"
ppc_mnemonic op_lmw = "lmw"
ppc_mnemonic op_stmw = "stmw"
ppc_mnemonic op_lfs = "lfs"
ppc_mnemonic op_lfd = "lfd"
ppc_mnemonic op_stfs = "stfs"
ppc_mnemonic op_stfd = "stfd"
ppc_mnemonic op_fmr = "fmr"
ppc_mnemonic op_fneg = "fneg"
ppc_mnemonic op_fadd = "fadd"
ppc_mnemonic op_fsub = "fsub"
ppc_mnemonic op_fmul = "fmul"
ppc_mnemonic op_fdiv = "fdiv"
ppc_mnemonic op_mflr = "mflr"
ppc_mnemonic op_mtlr = "mtlr"
ppc_mnemonic op_mfctr = "mfctr"
ppc_mnemonic op_mtctr = "mtctr"
ppc_mnemonic op_mr = "mr"
ppc_mnemonic op_rlwinm = "rlwinm"
ppc_mnemonic op_rlwimi = "rlwimi"
ppc_mnemonic op_rlwnm = "rlwnm"
ppc_mnemonic op_cmpw = "cmpw"
ppc_mnemonic op_cmplw = "cmplw"
ppc_mnemonic op_cmplwi = "cmplwi"
ppc_mnemonic op_mullw = "mullw"
ppc_mnemonic op_mulhw = "mulhw"
ppc_mnemonic op_mulhwu = "mulhwu"
ppc_mnemonic op_divw = "divw"
ppc_mnemonic op_divwu = "divwu"
ppc_mnemonic op_lwzu = "lwzu"
ppc_mnemonic op_stwu = "stwu"
ppc_mnemonic op_lbzu = "lbzu"
ppc_mnemonic op_stbu = "stbu"
ppc_mnemonic op_lhzu = "lhzu"
ppc_mnemonic op_sthu = "sthu"
ppc_mnemonic op_lha = "lha"
ppc_mnemonic op_lhau = "lhau"
ppc_mnemonic op_lfsu = "lfsu"
ppc_mnemonic op_lfdu = "lfdu"
ppc_mnemonic op_stfsu = "stfsu"
ppc_mnemonic op_stfdu = "stfdu"
ppc_mnemonic op_and = "and"
ppc_mnemonic op_or = "or"
ppc_mnemonic op_xor = "xor"
ppc_mnemonic op_nand = "nand"
ppc_mnemonic op_nor = "nor"
ppc_mnemonic op_eqv = "eqv"
ppc_mnemonic op_andc = "andc"
ppc_mnemonic op_orc = "orc"
ppc_mnemonic op_slw = "slw"
ppc_mnemonic op_srw = "srw"
ppc_mnemonic op_sraw = "sraw"
ppc_mnemonic op_srawi = "srawi"
ppc_mnemonic op_add = "add"
ppc_mnemonic op_subf = "subf"
ppc_mnemonic op_neg = "neg"
ppc_mnemonic op_ps_add = "ps_add"
ppc_mnemonic op_ps_sub = "ps_sub"
ppc_mnemonic op_ps_mul = "ps_mul"
ppc_mnemonic op_ps_div = "ps_div"
ppc_mnemonic op_ps_madd = "ps_madd"
ppc_mnemonic op_ps_msub = "ps_msub"
ppc_mnemonic op_ps_mr = "ps_mr"
ppc_mnemonic op_ps_neg = "ps_neg"
ppc_mnemonic op_psq_l = "psq_l"
ppc_mnemonic op_psq_st = "psq_st"
ppc_mnemonic op_psq_lu = "psq_lu"
ppc_mnemonic op_psq_stu = "psq_stu"
