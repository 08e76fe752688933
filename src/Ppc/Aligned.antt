-- ===== src/Ppc/Aligned.antt =====
-- Where the target of a decoded branch lies.
use calynda_for_wii.Base.{
  if_elim, ℕ, ◌≡◌, refl, ◌%◌, Option, some, none, List, [], ◌∷◌, ◌==◌, arith,
}
use calynda_for_wii.Ppc.Decode.{
  decode_iform_branch, decode_bform_branch, decode_opcode19, decode_dform_arith, decode_ori,
  decode_andi_dot, decode_cmpi, decode_cmpli, decode_opcode31, decode_opcode63, dform_op,
  dform_cases, decode_dform, decode_primary, ppc_decode,
}
use calynda_for_wii.Ppc.DecodeExt.{
  ppc_decode_mform, decode_psq_dform, ppc_decode_psq, ppc_decode_opcode4, fill_op31, search_op31,
  ppc_decode_op31_xform, k_op31,
}
use calynda_for_wii.Ppc.Insn.{PpcInsn, ppc_bits, blank_insn}
use calynda_for_wii.Ppc.Op.{PpcOp, op_cmpw, op_rlwimi, op_rlwinm, op_rlwnm}

-- Only branches have a target, and it is at a word.
abbrev pub HasAlignedTarget : PpcInsn → Type 0
HasAlignedTarget i = i.target % 4 ≡ 0

mform-target : (w : ℕ) (op : PpcOp) (i : PpcInsn) → (ppc_decode_mform w op i).target ≡ i.target
unfolding ppc_decode_mform
mform-target w op i = refl

opcode4-target : (w : ℕ) (i : PpcInsn) → (ppc_decode_opcode4 w i).target ≡ i.target
unfolding ppc_decode_opcode4
opcode4-target w i = ground arith

psq-target : (w : ℕ) (i : PpcInsn) → (ppc_decode_psq w i).target ≡ i.target
unfolding ppc_decode_psq decode_psq_dform
psq-target w i = ground arith

fill_op31-target : (op : PpcOp) (w : ℕ) (i : PpcInsn) → (fill_op31 op w i).target ≡ i.target
unfolding fill_op31
fill_op31-target op_cmpw w i = ground arith
fill_op31-target _ w i = ground arith

search_op31-target :
    (table : List (ℕ × PpcOp)) (w : ℕ) (i : PpcInsn) → (search_op31 table w i).target ≡ i.target
unfolding search_op31
search_op31-target [] w i = refl
search_op31-target ((xo, op) ∷ table) w i =
    if_elim (λ (o : PpcInsn). o.target ≡ i.target) (xo == ppc_bits w 21 30)
      (λ _. fill_op31-target op w i) (λ _. search_op31-target table w i)

decode_opcode19-target : (w : ℕ) (i : PpcInsn) → (decode_opcode19 w i).target ≡ i.target
unfolding decode_opcode19
decode_opcode19-target w i = ground arith

decode_ori-target : (w : ℕ) (i : PpcInsn) → (decode_ori w i).target ≡ i.target
unfolding decode_ori
decode_ori-target w i = ground arith

decode_andi_dot-target : (w : ℕ) (i : PpcInsn) → (decode_andi_dot w i).target ≡ i.target
unfolding decode_andi_dot
decode_andi_dot-target w i = ground arith

decode_cmpi-target : (w : ℕ) (i : PpcInsn) → (decode_cmpi w i).target ≡ i.target
unfolding decode_cmpi
decode_cmpi-target w i = ground arith

decode_cmpli-target : (w : ℕ) (i : PpcInsn) → (decode_cmpli w i).target ≡ i.target
unfolding decode_cmpli
decode_cmpli-target w i = ground arith

decode_opcode63-target : (w : ℕ) (i : PpcInsn) → (decode_opcode63 w i).target ≡ i.target
unfolding decode_opcode63
decode_opcode63-target w i = ground arith

dform-target : (o : Option PpcOp) (w : ℕ) (i : PpcInsn) → (decode_dform o w i).target ≡ i.target
unfolding decode_dform_arith
dform-target none w i = refl
dform-target (some op) w i = refl

opcode31-target : (w : ℕ) (i : PpcInsn) → (decode_opcode31 w i).target ≡ i.target
unfolding decode_opcode31 ppc_decode_op31_xform
opcode31-target w i = ground (arith, search_op31-target k_op31 w i)

iform-HasAlignedTarget :
    (w a : ℕ) (i : PpcInsn) → a % 4 ≡ 0 → HasAlignedTarget (decode_iform_branch w a i)
unfolding decode_iform_branch
iform-HasAlignedTarget w a i h = ground arith

bform-HasAlignedTarget :
    (w a : ℕ) (i : PpcInsn) → a % 4 ≡ 0 → HasAlignedTarget (decode_bform_branch w a i)
unfolding decode_bform_branch
bform-HasAlignedTarget w a i h = ground arith

-- An instruction at a word has its target at a word, and target 0 where it is no branch.
pub ppc_decode-HasAlignedTarget :
    (word vaddr : ℕ) → vaddr % 4 ≡ 0 → HasAlignedTarget (ppc_decode word vaddr)
unfolding ppc_decode decode_primary
ppc_decode-HasAlignedTarget word vaddr h =
    let i = blank_insn word vaddr in
    ground (
      arith,
      h,
      iform-HasAlignedTarget word vaddr i h,
      bform-HasAlignedTarget word vaddr i h,
      opcode4-target word i,
      psq-target word i,
      decode_opcode19-target word i,
      decode_ori-target word i,
      decode_andi_dot-target word i,
      decode_cmpi-target word i,
      decode_cmpli-target word i,
      decode_opcode63-target word i,
      opcode31-target word i,
      mform-target word op_rlwimi i,
      mform-target word op_rlwinm i,
      mform-target word op_rlwnm i,
      dform-target (dform_op dform_cases (ppc_bits word 0 5)) word i,
    )
