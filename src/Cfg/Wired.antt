-- ===== src/Cfg/Wired.antt =====
-- What the loop of `split_and_wire` over the blocks adds.
use mathlib.Core.List.Memᴰ
use calynda_for_wii.Base.{
  ◌∙◌, ℕ, suc, ◌+◌, ◌-◌, ◌%◌, ◌^◌, ◌≤◌, ◌<◌, some, List, [], ◌∷◌, ◌++◌, ◌==◌, All, Memᴰ, ◌≡◌, ◌⊎◌,
  ◌↔◌, inl, inr, refl, ap, arith, Bool-cases,
}
use calynda_for_wii.Dol.{DolImage}
use calynda_for_wii.Ppc.Decode.{ppc_decode}
use calynda_for_wii.Cfg.Graph.{Cfg, CfgBlock, CfgEdge, cfg_read_word}
use calynda_for_wii.Cfg.Build.{wire}
use calynda_for_wii.Cfg.Numbers.{IsNumbered, block_at}
use calynda_for_wii.Cfg.Transfers.{ending, IsTransfer, new_edges, wire_last_lem}
use calynda_for_wii.Cfg.Edges.{new_edges-IsTransfer}

-- The edge is one that the last word of a block gives, by what it is decoded as.
pub record IsEdge (img : DolImage) (blocks : List CfgBlock) (e : CfgEdge) : Type 0 where
  pub block : CfgBlock
  pub word : ℕ
  pub is_at : block_at e.from blocks ≡ some block
  pub read : cfg_read_word img (block.end_vaddr - 4) ≡ some word
  pub transfer :
      let insn = ppc_decode word (block.end_vaddr - 4) in
      IsTransfer blocks e.from (ending insn.op) insn.target block.end_vaddr e

-- The last word of the block is in the image.
pub record IsReady (img : DolImage) (b : CfgBlock) : Type 0 where
  pub has_last : 4 ≤ b.end_vaddr
  pub small : b.end_vaddr < 2 ^ 32
  pub word : ℕ
  pub read : cfg_read_word img (b.end_vaddr - 4) ≡ some word

-- The edges of block `i` behind those of `cfg`.
abbrev add_edges : DolImage → Cfg → ℕ → CfgBlock → ℕ → Cfg
add_edges img cfg i b w =
    let insn = ppc_decode w (b.end_vaddr - 4) in
    record cfg {
      edges = cfg.edges ++ new_edges cfg.blocks i (ending insn.op) insn.target b.end_vaddr;
    }

wire_step :
    (img : DolImage) (cfg : Cfg) (i : ℕ) (b : CfgBlock) (blocks : List CfgBlock)
    (ready : IsReady img b)
    → wire img cfg i (b ∷ blocks) ≡ wire img (add_edges img cfg i b ready.word) (suc i) blocks
unfolding wire
wire_step img cfg i b blocks ready =
    let last : (b.end_vaddr + 2 ^ 32 - 4) % 2 ^ 32 ≡ b.end_vaddr - 4 =
      omega (arith, ready.has_last, ready.small) in
    let insn = ppc_decode ready.word (b.end_vaddr - 4) in
    rw (last, ready.read)
      (ap (λ c. wire img c (suc i) blocks) (wire_last_lem insn.op cfg i insn.target b.end_vaddr))

-- The new edges of block `i` are edges of the graph that come from it, and there are no others.
new_edges-IsEdge :
    (img : DolImage) (blocks : List CfgBlock) (i : ℕ) (b : CfgBlock) (ready : IsReady img b)
    (e : CfgEdge)
    → IsNumbered blocks
    → block_at i blocks ≡ some b
    → let insn = ppc_decode ready.word (b.end_vaddr - 4) in
      Memᴰ e (new_edges blocks i (ending insn.op) insn.target b.end_vaddr)
      ↔ (IsEdge img blocks e × (e.from ≡ i))
new_edges-IsEdge img blocks i b ready e h at =
    let insn = ppc_decode ready.word (b.end_vaddr - 4) in
    let same = new_edges-IsTransfer blocks i (ending insn.op) insn.target b.end_vaddr e h in
    (
      λ m.
          let t = same.0 m in
          (
            record {
              block = b;
              word = ready.word;
              is_at = rw t.0 at;
              read = ready.read;
              transfer = (refl, t.1, t.2);
            },
            t.0,
          ),
      λ (edge, from).
          let block : edge.block ≡ b = cc (rw from at edge.is_at, at) in
          let word : edge.word ≡ ready.word = cc (rw block at edge.read, ready.read) in
          let t = rw (block, word) at edge.transfer in same.1 (from, t.1, t.2),
    )

-- The graph with the edges from block `i` on.
pub record Wired (img : DolImage) (cfg : Cfg) (i : ℕ) (edges : List CfgEdge) : Type 0 where
  pub edges_are :
      (e : CfgEdge) → Memᴰ e edges ↔ (Memᴰ e cfg.edges ⊎ (IsEdge img cfg.blocks e × (i ≤ e.from)))

Wired-step :
    (img : DolImage) (cfg : Cfg) (i : ℕ) (b : CfgBlock) (ready : IsReady img b)
    (edges : List CfgEdge)
    → IsNumbered cfg.blocks
    → block_at i cfg.blocks ≡ some b
    → Wired img (add_edges img cfg i b ready.word) (suc i) edges
    → Wired img cfg i edges
Wired-step img cfg i b ready edges h at rest = record {
  edges_are = λ e.
      let here = new_edges-IsEdge img cfg.blocks i b ready e h at in
      (
        λ m. elim ((rest.edges_are e).0 m) [
          | inl m ↦ elim (Memᴰ.append_cases cfg.edges m) [
            | inl old ↦ inl old
            | inr new ↦ let (edge, from) = here.0 new in inr (edge, omega (arith, from))
          ]
          | inr (edge, later) ↦ inr (edge, omega (arith, later))
        ],
        λ o. (rest.edges_are e).1 (elim o [
          | inl old ↦ inl (Memᴰ.append_left _ old)
          | inr (edge, from_i) ↦ elim (Bool-cases (e.from == i)) [
            | inl same ↦ inl (Memᴰ.append_right cfg.edges (here.1 (edge, ground (arith, same))))
            | inr other ↦ inr (edge, ground (arith, other, from_i))
          ]
        ]),
      );
}

pub wire_lem :
    (img : DolImage) (cfg : Cfg) (i : ℕ) (blocks : List CfgBlock)
    → IsNumbered cfg.blocks
    → All (IsReady img) blocks
    → ((j : ℕ) → block_at (i + j) cfg.blocks ≡ block_at j blocks)
    → (edges : List CfgEdge) × (wire img cfg i blocks ≡ some (record cfg { edges = edges }))
      × Wired img cfg i edges
unfolding wire
wire_lem img cfg i [] h ready place = (
  cfg.edges,
  refl,
  record {
    edges_are = λ e. (
      inl,
      λ o. elim o [
        | inl old ↦ old
        | inr (edge, later) ↦
            let from : i + (e.from - i) ≡ e.from = omega (arith, later) in
            absurd (cc (rw from at (place (e.from - i)), edge.is_at))
      ],
    );
  },
)
wire_lem img cfg i (b ∷ blocks) h (ready, later) place =
    let first : block_at i cfg.blocks ≡ some b =
      let zero_more : i + 0 ≡ i = omega arith in rw zero_more at (place 0) in
    let (edges, done, rest) =
      wire_lem img (add_edges img cfg i b ready.word) (suc i) blocks h later
        (λ j. let next : i + suc j ≡ suc i + j = omega arith in rw next at (place (suc j))) in
    (
      edges,
      wire_step img cfg i b blocks ready ∙ done,
      Wired-step img cfg i b ready edges h first rest,
    )
