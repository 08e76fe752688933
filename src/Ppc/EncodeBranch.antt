-- ===== src/Ppc/EncodeBranch.antt =====
-- An assembler's view of the conditional branch, and what the decoder makes of such words.
use calynda_for_wii.Base.Int.{to_uint32}
use calynda_for_wii.Base.{◌≤◌, ◌⊎◌, ◌∙◌, ◌/◌, ◌≡◌, ◌%◌, ◌-◌, ◌^◌, ◌<◌, ◌*◌, ◌+◌, ℕ, refl, arith}
use calynda_for_wii.Ppc.Op.{op_bc}
use calynda_for_wii.Ppc.Insn.{ppc_sext, ppc_bits, blank_insn}
use calynda_for_wii.Ppc.Decode.{ppc_decode, decode_primary, decode_bform_branch}

-- B-form: the condition and the bit it tests, then the distance from `vaddr` to `target`, in words,
-- below the absolute bit and above the link bit.
abbrev pub cond_branch_word : ℕ → ℕ → ℕ → ℕ → ℕ → ℕ
cond_branch_word bo bi vaddr target lk =
    16 * 2 ^ 26
    + bo * 2 ^ 21
    + bi * 2 ^ 16
    + (target + 2 ^ 32 - vaddr) % 2 ^ 32 / 4 % 2 ^ 14 * 4
    + lk

-- A conditional branch reaches 2 ^ 15 bytes in either direction.
abbrev pub IsNear : ℕ → ℕ → Type 0
IsNear vaddr target =
    ((target + 2 ^ 32 - vaddr) % 2 ^ 32 < 2 ^ 15)
    ⊎ (2 ^ 32 - 2 ^ 15 ≤ (target + 2 ^ 32 - vaddr) % 2 ^ 32)

cond_branch_fields :
    (bo bi vaddr target lk : ℕ)
    → bo < 32
    → bi < 32
    → lk < 2
    → (ppc_bits (cond_branch_word bo bi vaddr target lk) 0 5 ≡ 16)
      × (ppc_bits (cond_branch_word bo bi vaddr target lk) 6 10 ≡ bo)
      × (ppc_bits (cond_branch_word bo bi vaddr target lk) 11 15 ≡ bi)
      × (ppc_bits (cond_branch_word bo bi vaddr target lk) 30 30 ≡ 0)
      × (ppc_bits (cond_branch_word bo bi vaddr target lk) 31 31 ≡ lk)
      × (ppc_bits (cond_branch_word bo bi vaddr target lk) 16 29
          ≡ (target + 2 ^ 32 - vaddr) % 2 ^ 32 / 4 % 2 ^ 14)
cond_branch_fields bo bi vaddr target lk h1 h2 h3 = omega arith

near_distance :
    (n : ℕ)
    → n < 2 ^ 32
    → n % 4 ≡ 0
    → (n < 2 ^ 15) ⊎ (2 ^ 32 - 2 ^ 15 ≤ n)
    → to_uint32 (ppc_sext (n / 4 % 2 ^ 14 * 4 % 2 ^ 32) 16) ≡ n
near_distance n h a r = ground arith

bform_lem :
    (w vaddr bo bi m n lk : ℕ)
    → bo < 32
    → bi < 32
    → lk < 2
    → ppc_bits w 0 5 ≡ 16
    → ppc_bits w 6 10 ≡ bo
    → ppc_bits w 11 15 ≡ bi
    → ppc_bits w 30 30 ≡ 0
    → ppc_bits w 31 31 ≡ lk
    → ppc_bits w 16 29 ≡ m
    → to_uint32 (ppc_sext (m * 4 % 2 ^ 32) 16) ≡ n
    → ppc_decode w vaddr ≡ record (blank_insn w vaddr) {
      op = op_bc;
      rd = bo;
      ra = bi;
      target = (vaddr + n) % 2 ^ 32;
      lk = lk;
    }
unfolding ppc_decode decode_primary decode_bform_branch
bform_lem w vaddr bo bi m n lk h1 h2 h3 f1 f2 f3 f4 f5 f6 s =
    rw (f1, f2, f3, f4, f5, f6, s) (ground arith)

-- A conditional branch word with the distance from its own address to a target that it can reach
-- decodes to a conditional branch to that target, with its condition, its tested bit and its link bit.
pub ppc_decode-cond_branch_word :
    (bo bi vaddr target lk : ℕ)
    → bo < 32
    → bi < 32
    → vaddr < 2 ^ 32
    → target < 2 ^ 32
    → lk < 2
    → vaddr % 4 ≡ 0
    → target % 4 ≡ 0
    → IsNear vaddr target
    → ppc_decode (cond_branch_word bo bi vaddr target lk) vaddr
      ≡ record (blank_insn (cond_branch_word bo bi vaddr target lk) vaddr) {
        op = op_bc;
        rd = bo;
        ra = bi;
        target = target;
        lk = lk;
      }
ppc_decode-cond_branch_word bo bi vaddr target lk h1 h2 h3 h4 h5 h6 h7 h8 =
    let w = cond_branch_word bo bi vaddr target lk in
    let n = (target + 2 ^ 32 - vaddr) % 2 ^ 32 in
    let (f1, f2, f3, f4, f5, f6) = cond_branch_fields bo bi vaddr target lk h1 h2 h5 in
    let s = near_distance n (omega arith) (omega arith) h8 in
    let back : (vaddr + n) % 2 ^ 32 ≡ target = omega arith in
    bform_lem w vaddr bo bi _ n lk h1 h2 h5 f1 f2 f3 f4 f5 f6 s ∙ rw back refl
