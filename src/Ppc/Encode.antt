-- ===== src/Ppc/Encode.antt =====
-- An assembler's view of the instruction formats, and what the decoder makes of such words.
use calynda_for_wii.Base.{
  ◌∙◌, ℕ, ◌+◌, ◌-◌, ◌*◌, ◌/◌, ◌%◌, ◌^◌, ◌≤◌, ◌<◌, some, ◌==◌, ltb, if◌then◌else◌, arith, ◌≡◌, ◌⊎◌,
  ap,
}
use calynda_for_wii.Base.Int.{ℤ, pos, negsuc, to_uint32}
use calynda_for_wii.Ppc.Decode.{
  decode_iform_branch, decode_dform_arith, dform_op, dform_cases, decode_primary, ppc_decode,
}
use calynda_for_wii.Ppc.Insn.{PpcInsn, to_uint8, ppc_bits, ppc_sext, blank_insn}
use calynda_for_wii.Ppc.Op.{op_b, op_bl, PpcOp}

-- D-form: opcode, rD or rS, rA, and 16 bits of displacement.
abbrev pub dform_word : ℕ → ℕ → ℕ → ℕ → ℕ
dform_word primary rd ra d = primary * 2 ^ 26 + rd * 2 ^ 21 + ra * 2 ^ 16 + d

-- The signed value of a halfword.
abbrev pub signed16 : ℕ → ℤ
signed16 d = if ltb d (2 ^ 15) then pos d else negsuc (2 ^ 16 - 1 - d)

dform_fields :
    (primary rd ra d : ℕ)
    → primary < 64
    → rd < 32
    → ra < 32
    → d < 2 ^ 16
    → (ppc_bits (dform_word primary rd ra d) 0 5 ≡ primary)
      × (to_uint8 (ppc_bits (dform_word primary rd ra d) 6 10) ≡ rd)
      × (to_uint8 (ppc_bits (dform_word primary rd ra d) 11 15) ≡ ra)
      × (ppc_bits (dform_word primary rd ra d) 16 31 ≡ d)
dform_fields primary rd ra d h1 h2 h3 h4 = omega arith

sext-signed16 : (d : ℕ) → d < 2 ^ 16 → ppc_sext d 16 ≡ signed16 d
sext-signed16 d h = ground arith

-- The opcodes of the table are not among those that the switch treats in another way.
dform_op-primary :
    (primary : ℕ) (op : PpcOp) (word vaddr : ℕ) (i : PpcInsn)
    → dform_op dform_cases primary ≡ some op
    → (primary < 64) × (decode_primary primary word vaddr i ≡ decode_dform_arith word op i)
unfolding dform_op decode_primary
dform_op-primary primary op word vaddr i h = ground arith

-- A word of a D-form instruction of the table decodes to that instruction: its operation, its two
-- registers, and its last 16 bits as a signed number. The other fields stay zero.
pub ppc_decode-dform_word :
    (primary rd ra d vaddr : ℕ) (op : PpcOp)
    → dform_op dform_cases primary ≡ some op
    → rd < 32
    → ra < 32
    → d < 2 ^ 16
    → ppc_decode (dform_word primary rd ra d) vaddr
      ≡ record (blank_insn (dform_word primary rd ra d) vaddr) {
        op = op;
        rd = rd;
        ra = ra;
        imm = signed16 d;
      }
unfolding ppc_decode decode_dform_arith
ppc_decode-dform_word primary rd ra d vaddr op h h2 h3 h4 =
    let w = dform_word primary rd ra d in
    let (small, case) = dform_op-primary primary op w vaddr (blank_insn w vaddr) h in
    let (f1, f2, f3, f4) = dform_fields primary rd ra d small h2 h3 h4 in
    ground (arith, f1, f2, f3, f4, case, sext-signed16 d h4)

-- I-form: the distance from `vaddr` to `target`, in words, below the absolute bit and above the link
-- bit.
abbrev pub branch_word : ℕ → ℕ → ℕ → ℕ
branch_word vaddr target lk = 18 * 2 ^ 26 + (target + 2 ^ 32 - vaddr) % 2 ^ 32 / 4 % 2 ^ 24 * 4 + lk

-- A branch reaches 2 ^ 25 bytes in either direction.
abbrev pub IsReachable : ℕ → ℕ → Type 0
IsReachable vaddr target =
    ((target + 2 ^ 32 - vaddr) % 2 ^ 32 < 2 ^ 25)
    ⊎ (2 ^ 32 - 2 ^ 25 ≤ (target + 2 ^ 32 - vaddr) % 2 ^ 32)

branch_fields :
    (vaddr target lk : ℕ)
    → lk < 2
    → (ppc_bits (branch_word vaddr target lk) 0 5 ≡ 18)
      × (ppc_bits (branch_word vaddr target lk) 30 30 ≡ 0)
      × (ppc_bits (branch_word vaddr target lk) 31 31 ≡ lk)
      × (ppc_bits (branch_word vaddr target lk) 6 29
          ≡ (target + 2 ^ 32 - vaddr) % 2 ^ 32 / 4 % 2 ^ 24)
branch_fields vaddr target lk h = omega arith

sext_distance :
    (n : ℕ)
    → n < 2 ^ 32
    → n % 4 ≡ 0
    → (n < 2 ^ 25) ⊎ (2 ^ 32 - 2 ^ 25 ≤ n)
    → to_uint32 (ppc_sext (n / 4 % 2 ^ 24 * 4 % 2 ^ 32) 26) ≡ n
sext_distance n h a r = ground arith

iform_lem :
    (w vaddr m n lk : ℕ)
    → lk < 2
    → ppc_bits w 0 5 ≡ 18
    → ppc_bits w 30 30 ≡ 0
    → ppc_bits w 31 31 ≡ lk
    → ppc_bits w 6 29 ≡ m
    → to_uint32 (ppc_sext (m * 4 % 2 ^ 32) 26) ≡ n
    → ppc_decode w vaddr ≡ record (blank_insn w vaddr) {
      op = if lk == 1 then op_bl else op_b;
      target = (vaddr + n) % 2 ^ 32;
      lk = lk;
    }
unfolding ppc_decode decode_primary decode_iform_branch
iform_lem w vaddr m n lk h1 f1 f2 f3 f4 s = rw (f1, f2, f3, f4, s) (ground arith)

-- A branch word with the distance from its own address to a target that it can reach decodes to a
-- branch to that target, with the link bit kept: `bl` with it, `b` without it.
pub ppc_decode-branch_word :
    (vaddr target lk : ℕ)
    → vaddr < 2 ^ 32
    → target < 2 ^ 32
    → lk < 2
    → vaddr % 4 ≡ 0
    → target % 4 ≡ 0
    → IsReachable vaddr target
    → ppc_decode (branch_word vaddr target lk) vaddr
      ≡ record (blank_insn (branch_word vaddr target lk) vaddr) {
        op = if lk == 1 then op_bl else op_b;
        target = target;
        lk = lk;
      }
ppc_decode-branch_word vaddr target lk h1 h2 h3 h4 h5 h6 =
    let n = (target + 2 ^ 32 - vaddr) % 2 ^ 32 in
    let (f1, f2, f3, f4) = branch_fields vaddr target lk h3 in
    let s = sext_distance n (omega arith) (omega arith) h6 in
    let back : (vaddr + n) % 2 ^ 32 ≡ target = omega arith in
    iform_lem (branch_word vaddr target lk) vaddr _ n lk h3 f1 f2 f3 f4 s
    ∙ ap
        (λ (x : ℕ).
          let i : PpcInsn = record (blank_insn (branch_word vaddr target lk) vaddr) {
            op = if lk == 1 then op_bl else op_b;
            target = x;
            lk = lk;
          } in
          i)
        back
