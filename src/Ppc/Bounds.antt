-- ===== src/Ppc/Bounds.antt =====
-- The ranges of the fields of a decoded instruction.
use calynda_for_wii.Base.{if_elim, ℕ, ◌^◌, ◌<◌, Option, some, none, List, [], ◌∷◌, ◌==◌, arith}
use calynda_for_wii.Base.Int.{ℤ, pos, negsuc}
use calynda_for_wii.Ppc.Decode.{
  decode_iform_branch, decode_bform_branch, decode_opcode19, decode_dform_arith, decode_ori,
  decode_andi_dot, decode_cmpi, decode_cmpli, decode_opcode31, decode_opcode63, dform_op,
  dform_cases, decode_dform, decode_primary, ppc_decode,
}
use calynda_for_wii.Ppc.DecodeExt.{
  ppc_decode_mform, decode_psq_dform, ppc_decode_psq, ppc_decode_opcode4, fill_op31, search_op31,
  ppc_decode_op31_xform, k_op31,
}
use calynda_for_wii.Ppc.Insn.{PpcInsn, ppc_bits, ppc_sext, blank_insn}
use calynda_for_wii.Ppc.Op.{PpcOp, op_cmpw, op_rlwimi, op_rlwinm, op_rlwnm}

-- At least -(2 ^ 15), and below 2 ^ 16.
abbrev pub IsImmediate : ℤ → Type 0
IsImmediate (pos n) = n < 2 ^ 16
IsImmediate (negsuc n) = n < 2 ^ 15

pub record InRange (i : PpcInsn) : Type 0 where
  pub rd_ok : i.rd < 32
  pub ra_ok : i.ra < 32
  pub rb_ok : i.rb < 32
  pub sh_ok : i.sh < 32
  pub mb_ok : i.mb < 32
  pub me_ok : i.me < 32
  pub aa_ok : i.aa < 2
  pub lk_ok : i.lk < 2
  pub imm_ok : IsImmediate i.imm
  pub target_ok : i.target < 2 ^ 32

sext16 : (v : ℕ) → v < 2 ^ 16 → IsImmediate (ppc_sext v 16)
sext16 v h = ground arith

sext12 : (v : ℕ) → v < 2 ^ 12 → IsImmediate (ppc_sext v 12)
sext12 v h = ground arith

mform_ok : (w : ℕ) (op : PpcOp) (i : PpcInsn) → InRange i → InRange (ppc_decode_mform w op i)
unfolding ppc_decode_mform
mform_ok w op i h = ground arith

opcode4_ok : (w : ℕ) (i : PpcInsn) → InRange i → InRange (ppc_decode_opcode4 w i)
unfolding ppc_decode_opcode4
opcode4_ok w i h = ground arith

psq_ok : (w : ℕ) (i : PpcInsn) → InRange i → InRange (ppc_decode_psq w i)
unfolding ppc_decode_psq decode_psq_dform
psq_ok w i h = ground (arith, sext12 (ppc_bits w 20 31))

fill_op31_ok : (op : PpcOp) (w : ℕ) (i : PpcInsn) → InRange i → InRange (fill_op31 op w i)
unfolding fill_op31
fill_op31_ok op_cmpw w i h = ground arith
fill_op31_ok _ w i h = ground arith

search_op31_ok :
    (table : List (ℕ × PpcOp)) (w : ℕ) (i : PpcInsn) → InRange i → InRange (search_op31 table w i)
unfolding search_op31
search_op31_ok [] w i h = h
search_op31_ok ((xo, op) ∷ table) w i h =
    if_elim InRange (xo == ppc_bits w 21 30) (λ _. fill_op31_ok op w i h)
      (λ _. search_op31_ok table w i h)

iform_ok : (w a : ℕ) (i : PpcInsn) → InRange i → InRange (decode_iform_branch w a i)
unfolding decode_iform_branch
iform_ok w a i h = ground arith

bform_ok : (w a : ℕ) (i : PpcInsn) → InRange i → InRange (decode_bform_branch w a i)
unfolding decode_bform_branch
bform_ok w a i h = ground arith

opcode19_ok : (w : ℕ) (i : PpcInsn) → InRange i → InRange (decode_opcode19 w i)
unfolding decode_opcode19
opcode19_ok w i h = ground arith

dform_ok : (w : ℕ) (op : PpcOp) (i : PpcInsn) → InRange i → InRange (decode_dform_arith w op i)
unfolding decode_dform_arith
dform_ok w op i h = ground (arith, sext16 (ppc_bits w 16 31))

immediates_ok :
    (w : ℕ) (i : PpcInsn)
    → InRange i
    → InRange (decode_ori w i)
      × InRange (decode_andi_dot w i)
      × InRange (decode_cmpi w i)
      × InRange (decode_cmpli w i)
unfolding decode_ori decode_andi_dot decode_cmpi decode_cmpli
immediates_ok w i h =
    (ground arith, ground arith, ground (arith, sext16 (ppc_bits w 16 31)), ground arith)

opcode31_ok : (w : ℕ) (i : PpcInsn) → InRange i → InRange (decode_opcode31 w i)
unfolding decode_opcode31 ppc_decode_op31_xform
opcode31_ok w i h = ground (arith, search_op31_ok k_op31 w i h)

opcode63_ok : (w : ℕ) (i : PpcInsn) → InRange i → InRange (decode_opcode63 w i)
unfolding decode_opcode63
opcode63_ok w i h = ground arith

decode_dform_ok :
    (o : Option PpcOp) (w : ℕ) (i : PpcInsn) → InRange i → InRange (decode_dform o w i)
decode_dform_ok none w i h = h
decode_dform_ok (some op) w i h = dform_ok w op i h

decode_primary_ok : (k w a : ℕ) (i : PpcInsn) → InRange i → InRange (decode_primary k w a i)
unfolding decode_primary
decode_primary_ok k w a i h =
    let imm = immediates_ok w i h in
    ground (
      arith,
      h,
      opcode4_ok w i h,
      imm.0,
      imm.1,
      imm.2,
      imm.3,
      bform_ok w a i h,
      iform_ok w a i h,
      opcode19_ok w i h,
      mform_ok w op_rlwimi i h,
      mform_ok w op_rlwinm i h,
      mform_ok w op_rlwnm i h,
      opcode31_ok w i h,
      psq_ok w i h,
      opcode63_ok w i h,
      decode_dform_ok (dform_op dform_cases k) w i h,
    )

-- Whatever word is decoded, at whatever address, every field of the result is in the range of its
-- operand: registers and rotate fields below 32, flags 0 or 1, the target a word, and the immediate
-- a signed or an unsigned value of 16 bits.
pub ppc_decode-InRange : (word vaddr : ℕ) → InRange (ppc_decode word vaddr)
unfolding ppc_decode
ppc_decode-InRange word vaddr =
    decode_primary_ok (ppc_bits word 0 5) word vaddr (blank_insn word vaddr) (omega arith)
