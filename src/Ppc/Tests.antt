-- ===== src/Ppc/Tests.antt =====
-- The decoder at concrete words.
use calynda_for_wii.Ppc.EncodeExt.{mform_word, ppc_decode-mform_word}
use calynda_for_wii.Ppc.EncodeXform.{xform_word, ppc_decode-xform_word}
use calynda_for_wii.Ppc.EncodeBranch.{cond_branch_word, ppc_decode-cond_branch_word}
use calynda_for_wii.Base.{inl, some, inr, ◌≡◌, refl, arith}
use calynda_for_wii.Ppc.Op.{op_bc, op_or, op_rlwinm, ppc_mnemonic, op_unknown, op_bl, op_lwz}
use calynda_for_wii.Ppc.Insn.{blank_insn}
use calynda_for_wii.Ppc.Decode.{dform_op, ppc_decode}
use calynda_for_wii.Ppc.Encode.{
  dform_word, branch_word, signed16, ppc_decode-dform_word, ppc_decode-branch_word,
}
use calynda_for_wii.Ppc.Bounds.{InRange, ppc_decode-InRange}
use calynda_for_wii.Ppc.Multiply.{fmul_word, ppc_decode-fmul_word}
use calynda_for_wii.Ppc.Mnemonics.{named, ppc_ops, named-ppc_mnemonic}

-- `bl` back from 0x80004100 to 0x80004000.
ppc_decode-branch_word_example :
    ppc_decode (branch_word 0x80004100 0x80004000 1) 0x80004100
    ≡ record (blank_insn (branch_word 0x80004100 0x80004000 1) 0x80004100) {
      op = op_bl;
      target = 0x80004000;
      lk = 1;
    }
ppc_decode-branch_word_example =
    ppc_decode-branch_word 0x80004100 0x80004000 1 (omega arith) (omega arith) (omega arith) refl
      refl (inr (omega arith))

-- `lwz r3, -8(r1)`.
ppc_decode-dform_word_example :
    ppc_decode (dform_word 32 3 1 0xFFF8) 0x80004000
    ≡ record (blank_insn (dform_word 32 3 1 0xFFF8) 0x80004000) {
      op = op_lwz;
      rd = 3;
      ra = 1;
      imm = signed16 0xFFF8;
    }
unfolding dform_op
ppc_decode-dform_word_example =
    ppc_decode-dform_word 32 3 1 0xFFF8 0x80004000 op_lwz refl (omega arith) (omega arith)
      (omega arith)

ppc_decode-InRange_example : InRange (ppc_decode 0x48000101 0x80004000)
ppc_decode-InRange_example = ppc_decode-InRange 0x48000101 0x80004000

-- `fmul f1, f2, f3`.
ppc_decode-fmul_word_example : (ppc_decode (fmul_word 1 2 3 0) 0x80004000).op ≡ op_unknown
ppc_decode-fmul_word_example =
    ppc_decode-fmul_word 1 2 3 0 0x80004000 (omega arith) (omega arith) (omega arith) (omega arith)

named-ppc_mnemonic_example : named ppc_ops (ppc_mnemonic op_lwz) ≡ some op_lwz
named-ppc_mnemonic_example = named-ppc_mnemonic op_lwz

-- `rlwinm r3, r4, 2, 0, 29`.
ppc_decode-mform_word_example :
    ppc_decode (mform_word 21 4 3 2 0 29 0) 0x80004000
    ≡ record (blank_insn (mform_word 21 4 3 2 0 29 0) 0x80004000) {
      op = op_rlwinm;
      rd = 4;
      ra = 3;
      rb = 2;
      sh = 2;
      mb = 0;
      me = 29;
    }
ppc_decode-mform_word_example =
    ppc_decode-mform_word 21 4 3 2 0 29 0 0x80004000 op_rlwinm refl (omega arith) (omega arith)
      (omega arith) (omega arith) (omega arith) (omega arith)

-- `or r3, r4, r5`.
ppc_decode-xform_word_example :
    ppc_decode (xform_word 4 3 5 444 0) 0x80004000
    ≡ record (blank_insn (xform_word 4 3 5 444 0) 0x80004000) { op = op_or; rd = 4; ra = 3; rb = 5 }
unfolding dform_op
ppc_decode-xform_word_example =
    ppc_decode-xform_word 4 3 5 444 0 0x80004000 op_or refl refl refl (omega arith) (omega arith)
      (omega arith) (omega arith)

-- `bne` forward by 12 bytes.
ppc_decode-cond_branch_word_example :
    ppc_decode (cond_branch_word 4 2 0x80004000 0x8000400C 0) 0x80004000
    ≡ record (blank_insn (cond_branch_word 4 2 0x80004000 0x8000400C 0) 0x80004000) {
      op = op_bc;
      rd = 4;
      ra = 2;
      target = 0x8000400C;
      lk = 0;
    }
ppc_decode-cond_branch_word_example =
    ppc_decode-cond_branch_word 4 2 0x80004000 0x8000400C 0 (omega arith) (omega arith)
      (omega arith) (omega arith) (omega arith) refl refl (inl (omega arith))
