-- ===== src/Cfg/Inside.antt =====
-- What stands inside the blocks of a graph.
use calynda_for_wii.Cfg.Whole.{Tiled-below, build_blocks-cases}
use calynda_for_wii.Base.{
  or-right, ◌&&◌, ℕ, zero, suc, ◌+◌, ◌%◌, ◌^◌, ◌≤◌, ◌<◌, true, false, some, List, [], ◌∷◌, ◌==◌,
  ◌≡◌, ◌⊎◌, inl, inr, refl, arith, Bool-cases,
}
use calynda_for_wii.Dol.{DolImage}
use calynda_for_wii.Ppc.Op.{PpcOp, op_b, op_ba, op_bc, op_blr, op_bctr}
use calynda_for_wii.Ppc.Decode.{ppc_decode}
use calynda_for_wii.Cfg.Graph.{Cfg, CfgBlock, cfg_read_word}
use calynda_for_wii.Cfg.Build.{build_blocks}
use calynda_for_wii.Cfg.Begins.{jumps, Begins, ends_block}
use calynda_for_wii.Cfg.Division.{Tiled, starts_block}
use calynda_for_wii.Cfg.Numbers.{Starts-somewhere, Tiled-above, block_at}
use calynda_for_wii.Cfg.Transfers.{ending, straight}

Tiled-inside :
    (low end x i : ℕ) (b : CfgBlock) (blocks : List CfgBlock)
    → Tiled low end blocks
    → block_at i blocks ≡ some b
    → b.start_vaddr < x
    → x < b.end_vaddr
    → starts_block x blocks ≡ false
Tiled-inside low end x i b [] t e from below = cc
Tiled-inside low end x zero b (c ∷ blocks) (first, some_in, ends, rest) e from below =
    let same : c ≡ b = cc in
    let ends_below : x < c.end_vaddr = rw same below in
    let starts_above : c.start_vaddr < x = rw same from in
    elim (Bool-cases (starts_block x blocks)) [
      | inl later ↦
          absurd (omega (arith, Tiled-above c.end_vaddr end x blocks rest later, ends_below))
      | inr nowhere ↦ ground (arith, nowhere, starts_above)
    ]
Tiled-inside low end x (suc i) b (c ∷ blocks) (first, some_in, ends, rest) e from below =
    let behind =
      Tiled-above c.end_vaddr end b.start_vaddr blocks rest (Starts-somewhere blocks i b e) in
    let nowhere = Tiled-inside c.end_vaddr end x i b blocks rest e from below in
    ground (arith, nowhere, behind, from, first, ends)

-- A block lies in the range.
Tiled-within :
    (low end i : ℕ) (b : CfgBlock) (blocks : List CfgBlock)
    → Tiled low end blocks
    → block_at i blocks ≡ some b
    → (low ≤ b.start_vaddr) × (b.end_vaddr ≤ end)
Tiled-within low end i b [] t e = cc
Tiled-within low end zero b (c ∷ blocks) (first, some_in, ends, rest) e =
    let same : c ≡ b = cc in
    let below = Tiled-below c.end_vaddr end blocks rest in
    (rw (← same) (omega (arith, first)), rw (← same) below)
Tiled-within low end (suc i) b (c ∷ blocks) (first, some_in, ends, rest) e =
    let (from, below) = Tiled-within c.end_vaddr end i b blocks rest e in
    (omega (arith, from, ends), below)

ending-cases : (op : PpcOp) → (ending op ≡ straight) ⊎ (ends_block op ≡ true)
ending-cases op_b = inr refl
ending-cases op_ba = inr refl
ending-cases op_bc = inr refl
ending-cases op_blr = inr refl
ending-cases op_bctr = inr refl
ending-cases _ = inl refl

Begins-behind :
    (img : DolImage) (start end va word : ℕ)
    → start ≤ va
    → va + 4 < end
    → va % 4 ≡ 0
    → cfg_read_word img va ≡ some word
    → ends_block (ppc_decode word va).op ≡ true
    → Begins img start end start (va + 4)
Begins-behind img start end va word from below aligned read ends = record {
  va = va;
  word = word;
  from_low = from;
  in_range = omega (arith, below);
  aligned = aligned;
  read = read;
  splits = ground (
    arith,
    ends,
    from,
    below,
    or-right (jumps (ppc_decode word va).op && (va + 4) == (ppc_decode word va).target) true refl,
  );
}

-- In a graph that was built, no word before the last of a block is decoded as `b`, `ba`, `bc`, `blr` or
-- `bctr`; calls (`bl`, `bla`) and words decoded as unknown, such as conditional returns, may stand there.
pub build_blocks-straight :
    (img : DolImage) (start end i va word : ℕ) (cfg : Cfg) (b : CfgBlock)
    → end < 2 ^ 32
    → build_blocks img start end ≡ some cfg
    → block_at i cfg.blocks ≡ some b
    → b.start_vaddr ≤ va
    → va + 4 < b.end_vaddr
    → va % 4 ≡ 0
    → cfg_read_word img va ≡ some word
    → ending (ppc_decode word va).op ≡ straight
build_blocks-straight img start end i va word cfg b small e at_i from below aligned read =
    elim (build_blocks-cases img start end small) [
      | inl (_, c) ↦ cc
      | inr (r, all, built, done, graph) ↦ elim (ending-cases (ppc_decode word va).op) [
        | inl calm ↦ calm
        | inr ends ↦
            let same : built ≡ cfg = cc in
            let place = rw (← same) at at_i in
            let (above, inside) = Tiled-within start end i b built.blocks graph.tiled place in
            let here =
              Begins-behind img start end va word (omega (arith, above, from))
                (omega (arith, below, inside)) aligned read ends in
            let nowhere =
              Tiled-inside start end (va + 4) i b built.blocks graph.tiled place
                (omega (arith, from)) below in
            absurd (cc ((graph.begins (va + 4)).1 (inr here), nowhere))
      ]
    ]
