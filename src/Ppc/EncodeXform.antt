-- ===== src/Ppc/EncodeXform.antt =====
-- An assembler's view of the register instructions of opcode 31, and what the decoder makes of such
-- words.
use calynda_for_wii.Base.{
  Bool-cases, inl, inr, ◌+◌, ◌&&◌, ◌==◌, ◌^◌, arith, ◌∙◌, List, ◌<◌, Bool, ◌≡◌, ◌*◌, ℕ, refl, [],
  ◌∷◌, true, false, some,
}
use calynda_for_wii.Ppc.Op.{PpcOp, op_cmpw, op_cmplw, op_srawi, op_neg}
use calynda_for_wii.Ppc.Insn.{ppc_bits, PpcInsn, blank_insn}
use calynda_for_wii.Ppc.Decode.{ppc_decode, decode_primary, dform_op, decode_opcode31}
use calynda_for_wii.Ppc.DecodeExt.{k_op31, search_op31, fill_op31, ppc_decode_op31_xform, set_dab}

-- X-form: opcode 31, rS or rD, rA, rB, the extended opcode, and the record bit.
abbrev pub xform_word : ℕ → ℕ → ℕ → ℕ → ℕ → ℕ
xform_word rs ra rb xo rc = 31 * 2 ^ 26 + rs * 2 ^ 21 + ra * 2 ^ 16 + rb * 2 ^ 11 + xo * 2 + rc

-- The instructions with three registers: not the comparisons, the shift by a constant, or the
-- negation.
abbrev pub has_three_registers : PpcOp → Bool
has_three_registers op_cmpw = false
has_three_registers op_cmplw = false
has_three_registers op_srawi = false
has_three_registers op_neg = false
has_three_registers _ = true

-- `or` of a register with itself is read as `mr`.
abbrev pub is_move : ℕ → ℕ → ℕ → ℕ → Bool
is_move rs rb xo rc = xo == 444 && (rc == 0 && rs == rb)

xform_fields :
    (rs ra rb xo rc : ℕ)
    → rs < 32
    → ra < 32
    → rb < 32
    → xo < 1024
    → rc < 2
    → (ppc_bits (xform_word rs ra rb xo rc) 0 5 ≡ 31)
      × (ppc_bits (xform_word rs ra rb xo rc) 6 10 ≡ rs)
      × (ppc_bits (xform_word rs ra rb xo rc) 11 15 ≡ ra)
      × (ppc_bits (xform_word rs ra rb xo rc) 16 20 ≡ rb)
      × (ppc_bits (xform_word rs ra rb xo rc) 21 30 ≡ xo)
      × (ppc_bits (xform_word rs ra rb xo rc) 31 31 ≡ rc)
xform_fields rs ra rb xo rc h1 h2 h3 h4 h5 = omega arith

-- No extended opcode of the table is that of a move to or from a special register.
xform_op :
    (xo : ℕ) (op : PpcOp)
    → dform_op k_op31 xo ≡ some op
    → (xo < 1024) × ((xo == 339) ≡ false) × ((xo == 467) ≡ false)
unfolding dform_op
xform_op xo op h = ground arith

eq_comm : (a b : ℕ) → (a == b) ≡ (b == a)
eq_comm a b = ground arith

search_op31_lem :
    (table : List (ℕ × PpcOp)) (xo w : ℕ) (op : PpcOp) (i : PpcInsn)
    → ppc_bits w 21 30 ≡ xo
    → dform_op table xo ≡ some op
    → search_op31 table w i ≡ fill_op31 op w i
unfolding dform_op search_op31
search_op31_lem [] xo w op i e h = cc
search_op31_lem ((k, o) ∷ table) xo w op i e h = elim (Bool-cases (xo == k)) [
  | inl c ↦ let same = rw c at h in rw (e, eq_comm k xo, c) (cc)
  | inr c ↦ rw (e, eq_comm k xo, c) (search_op31_lem table xo w op i e (rw c at h))
]

fill_op31_lem :
    (op : PpcOp) (w : ℕ) (i : PpcInsn)
    → has_three_registers op ≡ true
    → fill_op31 op w i ≡ set_dab op (ppc_bits w 6 10) (ppc_bits w 11 15) (ppc_bits w 16 20) i
unfolding fill_op31
fill_op31_lem op_cmpw w i h = cc
fill_op31_lem op_cmplw w i h = cc
fill_op31_lem op_srawi w i h = cc
fill_op31_lem op_neg w i h = cc
fill_op31_lem _ w i h = refl

opcode31_lem :
    (w vaddr rs ra rb xo rc : ℕ) (op : PpcOp)
    → ppc_bits w 0 5 ≡ 31
    → ppc_bits w 6 10 ≡ rs
    → ppc_bits w 11 15 ≡ ra
    → ppc_bits w 16 20 ≡ rb
    → ppc_bits w 21 30 ≡ xo
    → ppc_bits w 31 31 ≡ rc
    → (xo == 339) ≡ false
    → (xo == 467) ≡ false
    → is_move rs rb xo rc ≡ false
    → ppc_decode w vaddr ≡ search_op31 k_op31 w (blank_insn w vaddr)
unfolding ppc_decode decode_primary decode_opcode31 ppc_decode_op31_xform
opcode31_lem w vaddr rs ra rb xo rc op f1 f2 f3 f4 f5 f6 a b m =
    rw (f1, f2, f4, f5, f6, a, b, m) refl

set_dab_lem :
    (op : PpcOp) (rs ra rb : ℕ) (i : PpcInsn)
    → rs < 32
    → ra < 32
    → rb < 32
    → set_dab op rs ra rb i ≡ record i { op = op; rd = rs; ra = ra; rb = rb }
set_dab_lem op rs ra rb i h1 h2 h3 = ground arith

-- A word of an instruction of the table with three registers, unless it is the `or` of a register
-- with itself that is read as a move, decodes to that instruction with its three registers.
pub ppc_decode-xform_word :
    (rs ra rb xo rc vaddr : ℕ) (op : PpcOp)
    → dform_op k_op31 xo ≡ some op
    → has_three_registers op ≡ true
    → is_move rs rb xo rc ≡ false
    → rs < 32
    → ra < 32
    → rb < 32
    → rc < 2
    → ppc_decode (xform_word rs ra rb xo rc) vaddr
      ≡ record (blank_insn (xform_word rs ra rb xo rc) vaddr) { op = op; rd = rs; ra = ra; rb = rb }
ppc_decode-xform_word rs ra rb xo rc vaddr op h three move h1 h2 h3 h4 =
    let w = xform_word rs ra rb xo rc in
    let (small, a, b) = xform_op xo op h in
    let (f1, f2, f3, f4, f5, f6) = xform_fields rs ra rb xo rc h1 h2 h3 small h4 in
    opcode31_lem w vaddr rs ra rb xo rc op f1 f2 f3 f4 f5 f6 a b move
    ∙ search_op31_lem k_op31 xo w op (blank_insn w vaddr) f5 h
    ∙ fill_op31_lem op w (blank_insn w vaddr) three
    ∙ rw (f2, f3, f4) (set_dab_lem op rs ra rb (blank_insn w vaddr) h1 h2 h3)
