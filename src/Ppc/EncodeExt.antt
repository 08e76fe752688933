-- ===== src/Ppc/EncodeExt.antt =====
-- An assembler's view of the rotate and the register instructions, and what the decoder makes of
-- such words.
use calynda_for_wii.Base.{
  none, ◌+◌, arith, ◌==◌, if◌then◌else◌, ◌^◌, some, ◌*◌, ◌≡◌, Option, ◌<◌, ℕ,
}
use calynda_for_wii.Ppc.Op.{op_rlwnm, op_rlwinm, PpcOp, op_rlwimi}
use calynda_for_wii.Ppc.Insn.{to_uint8, ppc_bits, PpcInsn, blank_insn}
use calynda_for_wii.Ppc.Decode.{ppc_decode, decode_primary}
use calynda_for_wii.Ppc.DecodeExt.{ppc_decode_mform}

-- M-form: opcode, rS, rA, the shift amount or rB, the two ends of the mask, and the record bit.
abbrev pub mform_word : ℕ → ℕ → ℕ → ℕ → ℕ → ℕ → ℕ → ℕ
mform_word primary rs ra sh mb me rc =
    primary * 2 ^ 26 + rs * 2 ^ 21 + ra * 2 ^ 16 + sh * 2 ^ 11 + mb * 2 ^ 6 + me * 2 + rc

-- The rotate instructions by opcode.
abbrev pub mform_op : ℕ → Option PpcOp
mform_op primary =
    if primary == 20
    then some op_rlwimi
    else if primary == 21
    then some op_rlwinm
    else if primary == 23
    then some op_rlwnm
    else none

mform_fields :
    (primary rs ra sh mb me rc : ℕ)
    → primary < 64
    → rs < 32
    → ra < 32
    → sh < 32
    → mb < 32
    → me < 32
    → rc < 2
    → (ppc_bits (mform_word primary rs ra sh mb me rc) 0 5 ≡ primary)
      × (to_uint8 (ppc_bits (mform_word primary rs ra sh mb me rc) 6 10) ≡ rs)
      × (to_uint8 (ppc_bits (mform_word primary rs ra sh mb me rc) 11 15) ≡ ra)
      × (to_uint8 (ppc_bits (mform_word primary rs ra sh mb me rc) 16 20) ≡ sh)
      × (to_uint8 (ppc_bits (mform_word primary rs ra sh mb me rc) 21 25) ≡ mb)
      × (to_uint8 (ppc_bits (mform_word primary rs ra sh mb me rc) 26 30) ≡ me)
mform_fields primary rs ra sh mb me rc h1 h2 h3 h4 h5 h6 h7 = omega arith

mform_op-primary :
    (primary : ℕ) (op : PpcOp) (word vaddr : ℕ) (i : PpcInsn)
    → mform_op primary ≡ some op
    → (primary < 64) × (decode_primary primary word vaddr i ≡ ppc_decode_mform word op i)
unfolding decode_primary
mform_op-primary primary op word vaddr i h = ground arith

-- A word of a rotate instruction decodes to that instruction: its operation, its two registers, and
-- the two ends of its mask; what stands in the place of the shift amount is kept both as that and as
-- a third register.
pub ppc_decode-mform_word :
    (primary rs ra sh mb me rc vaddr : ℕ) (op : PpcOp)
    → mform_op primary ≡ some op
    → rs < 32
    → ra < 32
    → sh < 32
    → mb < 32
    → me < 32
    → rc < 2
    → ppc_decode (mform_word primary rs ra sh mb me rc) vaddr
      ≡ record (blank_insn (mform_word primary rs ra sh mb me rc) vaddr) {
        op = op;
        rd = rs;
        ra = ra;
        rb = sh;
        sh = sh;
        mb = mb;
        me = me;
      }
unfolding ppc_decode ppc_decode_mform
ppc_decode-mform_word primary rs ra sh mb me rc vaddr op h h1 h2 h3 h4 h5 h6 =
    let w = mform_word primary rs ra sh mb me rc in
    let (small, case) = mform_op-primary primary op w vaddr (blank_insn w vaddr) h in
    let (f1, f2, f3, f4, f5, f6) = mform_fields primary rs ra sh mb me rc small h1 h2 h3 h4 h5 h6 in
    ground (arith, f1, f2, f3, f4, f5, f6, case)
