-- ===== src/Cfg/Ordered.antt =====
-- The reverse post-order that `build_rpo` returns.
use calynda_for_wii.Cfg.Places.{
  position-Before, position_elsewhere, position-turned, mem-turned, size, position_lem,
  get_or-append, turned, positions,
}
use calynda_for_wii.Cfg.Build.{build_blocks}
use calynda_for_wii.Cfg.Depth.{leads_inside}
use calynda_for_wii.Cfg.Numbers.{block_at}
use calynda_for_wii.Cfg.Whole.{build_blocks-cases, IsGraph}
use calynda_for_wii.Cfg.Wired.{IsEdge}
use calynda_for_wii.Dol.{DolImage}
use calynda_for_wii.Cfg.PostOrder.{search-IsPostOrder, is_wired}
use calynda_for_wii.Cfg.Positions.{mem-get_or, position}
use calynda_for_wii.Cfg.Graph.{CfgBlock, CfgEdge, cfg_invalid, Cfg}
use calynda_for_wii.Cfg.Dominance.{Rpo, build_rpo}
use calynda_for_wii.Cfg.Search.{Edge, Reaches}
use calynda_for_wii.Base.{
  Memᴰ, ◌^◌, ℕ, zero, suc, ◌+◌, ◌<◌, true, ◌||◌, some, List, [], ◌∷◌, length, length-append, get_or,
  mem, ltb, ◌==◌, ◌≡◌, ◌⊎◌, inl, inr, refl, sym, ap, ◌∙◌, arith, Bool-cases,
}

-- The order holds the blocks that the entry reaches, each once, the entry first, and every other one
-- behind one of its predecessors; `pos` has their positions, and is invalid for the other blocks.
pub record IsOrder (cfg : Cfg) (rpo : Rpo) : Type 0 where
  pub at_position :
      (b : ℕ)
      → Reaches cfg cfg.entry_block b
      → (get_or rpo.pos b cfg_invalid < length rpo.order)
        × (get_or rpo.order (get_or rpo.pos b cfg_invalid) 0 ≡ b)
  pub has_position :
      (k : ℕ)
      → k < length rpo.order
      → Reaches cfg cfg.entry_block (get_or rpo.order k 0)
        × (get_or rpo.pos (get_or rpo.order k 0) cfg_invalid ≡ k)
  pub elsewhere :
      (b : ℕ) → ¬ Reaches cfg cfg.entry_block b → get_or rpo.pos b cfg_invalid ≡ cfg_invalid
  pub entry_first : get_or rpo.pos cfg.entry_block cfg_invalid ≡ 0
  pub behind :
      (b : ℕ)
      → Reaches cfg cfg.entry_block b
      → (b ≡ cfg.entry_block)
        ⊎ ((p : ℕ) × Edge cfg p b × (get_or rpo.pos p cfg_invalid < get_or rpo.pos b cfg_invalid))

-- A graph whose edges lead to blocks.
build_rpo-IsOrder :
    (cfg : Cfg) → is_wired cfg ≡ true → (rpo : Rpo) × (build_rpo cfg ≡ some rpo) × IsOrder cfg rpo
unfolding build_rpo
build_rpo-IsOrder cfg wired =
    let n = length cfg.blocks in
    let (s, found, post) = search-IsPostOrder cfg wired in
    let order = s.order in
    let lemma = position_lem order n post.once post.inside in
    let (l, last) = post.entry_last in
    let whole = ap length last ∙ length-append l (cfg.entry_block ∷ []) in
    (
      record { order = turned order; pos = positions order n },
      rw found refl,
      record {
        at_position = λ b path.
            let (k, h, e) = position b order (post.all b path) in
            let (here, same) = lemma k b h e in
            (
              omega (arith, same, h, size order n post.once post.inside),
              ap (λ i. get_or (turned order) i 0) same ∙ here,
            );
        has_position = λ k h.
            let below : k < length order = omega (arith, h, size order n post.once post.inside) in
            (
              post.only _
                  (mem-turned order n post.once post.inside _ (mem-get_or (turned order) k h)),
              position-turned order n post.once post.inside k below,
            );
        elsewhere = λ b unreached. elim (Bool-cases (mem b order)) [
          | inl m ↦ absurd (unreached (post.only b m))
          | inr m ↦ position_elsewhere order n post.once post.inside b m
        ];
        entry_first =
            let here : get_or order (length l + 0) 0 ≡ cfg.entry_block =
              rw last (get_or-append l (cfg.entry_block ∷ []) 0) in
            let (_, same) = lemma (length l + 0) cfg.entry_block (omega (arith, whole)) here in
            omega (arith, same, whole);
        behind = λ b path. elim (post.led b (post.all b path)) [
          | inl same ↦ inl same
          | inr (p, e, before) ↦
              inr (p, e, position-Before order n post.once post.inside b p before)
        ];
      },
    )

block_at-inside :
    (i : ℕ) (blocks : List CfgBlock) (b : CfgBlock) → block_at i blocks ≡ some b → i < length blocks
block_at-inside i [] b e = cc
block_at-inside zero (c ∷ blocks) b e = omega arith
block_at-inside (suc i) (c ∷ blocks) b e =
    let below = block_at-inside i blocks b e in omega (arith, below)

edge-inside :
    (img : DolImage) (blocks : List CfgBlock) (e : CfgEdge)
    → IsEdge img blocks e
    → (e.to == cfg_invalid || ltb e.to (length blocks)) ≡ true
edge-inside img blocks e edge =
    let (_, _, how) = edge.transfer in
    elim how [
      | inr (out, _) ↦ ground (arith, out)
      | inl stays ↦
          let below = block_at-inside e.to blocks stays.starts.block stays.starts.is_at in
          ground (arith, below)
    ]

all-leads_inside :
    (n : ℕ) (edges : List CfgEdge)
    → ((e : CfgEdge) → Memᴰ e edges → (e.to == cfg_invalid || ltb e.to n) ≡ true)
    → leads_inside n edges ≡ true
all-leads_inside n [] h = refl
all-leads_inside n (e ∷ edges) h =
    let rest = all-leads_inside n edges (λ d m. h d (Memᴰ.tail m)) in
    ground (arith, h e (Memᴰ.head refl), rest)

graph-is_wired :
    (img : DolImage) (start end : ℕ) (cfg : Cfg) → IsGraph img start end cfg → is_wired cfg ≡ true
graph-is_wired img start end cfg g =
    let entry = block_at-inside cfg.entry_block cfg.blocks g.entry_is.block g.entry_is.is_at in
    let edges =
      all-leads_inside (length cfg.blocks) cfg.edges
        (λ e m. edge-inside img cfg.blocks e ((g.edges_are e).0 m)) in
    ground (arith, entry, edges)

-- For every graph that is built, `build_rpo` returns: its order holds the blocks that the entry block
-- reaches, each once, the entry first and every other one behind one of its predecessors, and its
-- positions are the places of these blocks, and invalid for the others.
pub build_blocks-ordered :
    (img : DolImage) (start end : ℕ) (cfg : Cfg)
    → end < 2 ^ 32
    → build_blocks img start end ≡ some cfg
    → (rpo : Rpo) × (build_rpo cfg ≡ some rpo) × IsOrder cfg rpo
build_blocks-ordered img start end cfg small built = elim (build_blocks-cases img start end small) [
  | inl (_, c) ↦ absurd (cc (built, c))
  | inr (_, _, cfg', built', graph) ↦
      let same : some cfg' ≡ some cfg = sym built' ∙ built in
      let same' : cfg' ≡ cfg = cc same in
      build_rpo-IsOrder cfg (rw same' at (graph-is_wired img start end cfg' graph))
]
