-- ===== src/Cfg/Begins.antt =====
-- Where blocks have to begin, and what `collect_leaders` makes of it.
use calynda_for_wii.Base.{
  ℕ, ◌+◌, ◌%◌, ◌^◌, ◌≤◌, ◌<◌, Bool, true, false, ◌&&◌, ◌||◌, some, List, [], ◌∷◌, ◌++◌, ltb, leb,
  ◌==◌, mem, ◌≡◌, refl, arith,
}
use calynda_for_wii.Dol.{DolImage}
use calynda_for_wii.Ppc.Op.{PpcOp, op_b, op_ba, op_bc, op_blr, op_bctr}
use calynda_for_wii.Ppc.Insn.{PpcInsn}
use calynda_for_wii.Ppc.Decode.{ppc_decode}
use calynda_for_wii.Cfg.Graph.{cfg_read_word}
use calynda_for_wii.Cfg.Leaders.{push_after, push_target, push_leaders}

-- The branches that are no calls and have a target in the word: `b`, `ba` and `bc`.
abbrev pub jumps : PpcOp → Bool
jumps op_b = true
jumps op_ba = true
jumps op_bc = true
jumps _ = false

-- The instructions behind which a block begins: these, `blr` and `bctr`. Calls do not count, nor do
-- words that the decoder leaves unknown.
abbrev pub ends_block : PpcOp → Bool
ends_block op_blr = true
ends_block op_bctr = true
ends_block op = jumps op

-- The instruction makes a block begin at `x`: a branch to it, or an end of a block just before it.
abbrev pub splits_at : ℕ → ℕ → PpcInsn → ℕ → ℕ → Bool
splits_at start end insn va x =
    (leb start x && ltb x end)
    && ((jumps insn.op && x == insn.target) || (ends_block insn.op && x == va + 4))

-- Some instruction of the range, from `low` on, makes a block begin at `x`.
pub record Begins (img : DolImage) (start end low x : ℕ) : Type 0 where
  pub va : ℕ
  pub word : ℕ
  pub from_low : low ≤ va
  pub in_range : va < end
  pub aligned : va % 4 ≡ 0
  pub read : cfg_read_word img va ≡ some word
  pub splits : splits_at start end (ppc_decode word va) va x ≡ true

mem_end : (x y : ℕ) (l : List ℕ) → mem x (l ++ y ∷ []) ≡ (mem x l || x == y)
mem_end x y [] = ground arith
mem_end x y (z ∷ l) = ground (arith, mem_end x y l)

push_target-mem :
    (start end target x : ℕ) (arr : List ℕ)
    → mem x (push_target start end target arr)
      ≡ (mem x arr || ((leb start x && ltb x end) && x == target))
push_target-mem start end target x arr = ground (arith, mem_end x target arr)

or_both :
    (all first old range at_target behind : Bool)
    → all ≡ (first || (range && behind))
    → first ≡ (old || (range && at_target))
    → all ≡ (old || (range && (at_target || behind)))
or_both all first true range at_target behind e f = ground arith
or_both all first false true true behind e f = ground arith
or_both all first false true false behind e f = ground arith
or_both all first false false at_target behind e f = ground arith

or_nothing : (old range : Bool) → old ≡ (old || (range && false))
or_nothing true range = refl
or_nothing false true = refl
or_nothing false false = refl

push_after-mem :
    (start end va x : ℕ) (arr : List ℕ)
    → va + 4 < 2 ^ 32
    → start ≤ va
    → mem x (push_after end va arr) ≡ (mem x arr || ((leb start x && ltb x end) && x == va + 4))
push_after-mem start end va x arr small above =
    let next : (va + 4) % 2 ^ 32 ≡ va + 4 = omega (arith, small) in
    rw next (ground (arith, mem_end x (va + 4) arr))

pub push_leaders-mem :
    (start end va x : ℕ) (insn : PpcInsn) (arr : List ℕ)
    → va + 4 < 2 ^ 32
    → start ≤ va
    → mem x (push_leaders insn.op start end va insn.target arr)
      ≡ (mem x arr || splits_at start end insn va x)
push_leaders-mem start end va x insn arr small above =
    go insn.op
      (or_both (mem x (push_after end va (push_target start end insn.target arr)))
        (mem x (push_target start end insn.target arr)) (mem x arr) (leb start x && ltb x end)
        (x == insn.target) (x == va + 4)
        (push_after-mem start end va x (push_target start end insn.target arr) small above)
        (push_target-mem start end insn.target x arr))
      (push_after-mem start end va x arr small above)
  where
    go :
        (op : PpcOp)
        → mem x (push_after end va (push_target start end insn.target arr))
          ≡ (mem x arr || ((leb start x && ltb x end) && (x == insn.target || x == va + 4)))
        → mem x (push_after end va arr) ≡ (mem x arr || ((leb start x && ltb x end) && x == va + 4))
        → mem x (push_leaders op start end va insn.target arr) ≡ (
            mem x arr
            || ((leb start x && ltb x end)
                && ((jumps op && x == insn.target) || (ends_block op && x == va + 4))))
    go op_b both after = both
    go op_ba both after = both
    go op_bc both after = both
    go op_blr both after = after
    go op_bctr both after = after
    go _ both after = or_nothing (mem x arr) (leb start x && ltb x end)
