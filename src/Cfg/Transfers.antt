-- ===== src/Cfg/Transfers.antt =====
-- The edges that `wire` adds for the end of a block. Calls, and words that the decoder leaves unknown,
-- such as conditional returns, count as straight-line code.
use mathlib.Core.List.Memᴰ
use calynda_for_wii.Base.{
  append_assoc, ◌∙◌, Memᴰ, append-nil, sym, ap, if◌then◌else◌, ℕ, Bool, true, false, not, List, [],
  ◌∷◌, ◌++◌, ◌==◌, ◌≡◌, ◌⊎◌, ◌↔◌, inl, inr, refl, Bool-cases,
}
use calynda_for_wii.Base.Int.{negsuc}
use calynda_for_wii.Ppc.Op.{PpcOp, op_b, op_ba, op_bc, op_blr, op_bctr}
use calynda_for_wii.Cfg.Graph.{
  Cfg, CfgBlock, CfgEdge, CfgEdgeKind, cfg_invalid, cfg_block_of_vaddr, cfg_add_edge, block_from,
  edge_fallthrough, edge_uncond, edge_cond_taken, edge_cond_not_taken, edge_indirect_unknown,
  edge_return,
}
use calynda_for_wii.Cfg.Build.{edge_if_valid, edge_or_return, wire_last}
use calynda_for_wii.Cfg.Division.{starts_block}
use calynda_for_wii.Cfg.Numbers.{
  IsNumbered, Starts, number-cases, Starts-number, Starts-starts_block,
}

-- How the graph takes an instruction to pass control on. `bl` and `bla` are straight, for a call comes
-- back, and so is every word that the decoder leaves unknown, for instance `beqlr` and `bctrl`.
pub data Ending : Type 0 where
  jump cond_branch return_ indirect straight : Ending

abbrev pub ending : PpcOp → Ending
ending op_b = jump
ending op_ba = jump
ending op_bc = cond_branch
ending op_blr = return_
ending op_bctr = indirect
ending _ = straight

-- The graph takes control to go to the address `x` by an edge of this kind; `target` is the target of the instruction,
-- and `ft` the address behind it.
abbrev pub passes : Ending → ℕ → ℕ → CfgEdgeKind → ℕ → Bool
passes jump target ft edge_uncond x = x == target
passes cond_branch target ft edge_cond_taken x = x == target
passes cond_branch target ft edge_cond_not_taken x = x == ft
passes straight target ft edge_fallthrough x = x == ft
passes _ target ft _ x = false

-- The kinds of edges out of the function, or to an address that is not known. The taken side of a
-- conditional branch has none: where its target starts no block, it has no edge at all.
abbrev pub leaves : List CfgBlock → Ending → ℕ → ℕ → CfgEdgeKind → Bool
leaves blocks jump target ft edge_return = not (starts_block target blocks)
leaves blocks return_ target ft edge_return = true
leaves blocks indirect target ft edge_indirect_unknown = true
leaves blocks straight target ft edge_return = not (starts_block ft blocks)
leaves blocks _ target ft _ = false

-- The edge stays in the function: it leads to the block that starts where control goes.
pub record Stays (blocks : List CfgBlock) (k : Ending) (target ft : ℕ) (e : CfgEdge) : Type 0 where
  pub vaddr : ℕ
  pub passes_to : passes k target ft e.kind vaddr ≡ true
  pub starts : Starts blocks vaddr e.to

-- The edge is one from the end of block `i`.
abbrev pub IsTransfer : List CfgBlock → ℕ → Ending → ℕ → ℕ → CfgEdge → Type 0
IsTransfer blocks i k target ft e =
    (e.from ≡ i)
    × (e.case_value ≡ negsuc 0)
    × (Stays blocks k target ft e
        ⊎ ((e.to ≡ cfg_invalid) × (leaves blocks k target ft e.kind ≡ true)))

abbrev pub edge_of : ℕ → ℕ → CfgEdgeKind → CfgEdge
edge_of from to kind = record { from = from; to = to; kind = kind; case_value = negsuc 0 }

abbrev pub if_valid : List CfgBlock → ℕ → ℕ → CfgEdgeKind → List CfgEdge
if_valid blocks i x kind =
    if block_from 0 blocks x == cfg_invalid then [] else edge_of i (block_from 0 blocks x) kind ∷ []

abbrev pub to_or_return : List CfgBlock → ℕ → ℕ → CfgEdgeKind → List CfgEdge
to_or_return blocks i x kind =
    if block_from 0 blocks x == cfg_invalid
    then edge_of i cfg_invalid edge_return ∷ []
    else edge_of i (block_from 0 blocks x) kind ∷ []

-- The edges that are added for an ending.
abbrev pub new_edges : List CfgBlock → ℕ → Ending → ℕ → ℕ → List CfgEdge
new_edges blocks i jump target ft = to_or_return blocks i target edge_uncond
new_edges blocks i cond_branch target ft =
    if_valid blocks i target edge_cond_taken ++ if_valid blocks i ft edge_cond_not_taken
new_edges blocks i return_ target ft = edge_of i cfg_invalid edge_return ∷ []
new_edges blocks i indirect target ft = edge_of i cfg_invalid edge_indirect_unknown ∷ []
new_edges blocks i straight target ft = to_or_return blocks i ft edge_fallthrough

if_valid_lem :
    (cfg : Cfg) (i x : ℕ) (kind : CfgEdgeKind)
    → edge_if_valid cfg i (cfg_block_of_vaddr cfg x) kind
      ≡ record cfg { edges = cfg.edges ++ if_valid cfg.blocks i x kind }
unfolding cfg_block_of_vaddr cfg_add_edge
if_valid_lem cfg i x kind = elim (Bool-cases (block_from 0 cfg.blocks x == cfg_invalid)) [
  | inl e ↦ rw e (ap (λ l. record cfg { edges = l }) (sym (append-nil cfg.edges)))
  | inr e ↦ rw e refl
]

to_or_return_lem :
    (cfg : Cfg) (i x : ℕ) (kind : CfgEdgeKind)
    → edge_or_return cfg i (cfg_block_of_vaddr cfg x) kind
      ≡ record cfg { edges = cfg.edges ++ to_or_return cfg.blocks i x kind }
unfolding cfg_block_of_vaddr cfg_add_edge
to_or_return_lem cfg i x kind = elim (Bool-cases (block_from 0 cfg.blocks x == cfg_invalid)) [
  | inl e ↦ rw e refl
  | inr e ↦ rw e refl
]

pub wire_last_lem :
    (op : PpcOp) (cfg : Cfg) (i target ft : ℕ)
    → wire_last op cfg i target ft
      ≡ record cfg { edges = cfg.edges ++ new_edges cfg.blocks i (ending op) target ft }
unfolding cfg_add_edge cfg_block_of_vaddr
wire_last_lem op_b cfg i target ft = to_or_return_lem cfg i target edge_uncond
wire_last_lem op_ba cfg i target ft = to_or_return_lem cfg i target edge_uncond
wire_last_lem op_bc cfg i target ft =
    let first = if_valid cfg.blocks i target edge_cond_taken in
    let second = if_valid cfg.blocks i ft edge_cond_not_taken in
    ap (λ c. edge_if_valid c i (cfg_block_of_vaddr cfg ft) edge_cond_not_taken)
      (if_valid_lem cfg i target edge_cond_taken)
    ∙ if_valid_lem (record cfg { edges = cfg.edges ++ first }) i ft edge_cond_not_taken
    ∙ ap (λ l. record cfg { edges = l }) (append_assoc cfg.edges first second)
wire_last_lem op_blr cfg i target ft = refl
wire_last_lem op_bctr cfg i target ft = refl
wire_last_lem _ cfg i target ft = to_or_return_lem cfg i ft edge_fallthrough

edge-eta :
    (e : CfgEdge) (i n : ℕ) (kind : CfgEdgeKind)
    → e.from ≡ i
    → e.case_value ≡ negsuc 0
    → e.to ≡ n
    → e.kind ≡ kind
    → e ≡ edge_of i n kind
edge-eta e i n kind f c t k = λ j. record { from = f j; to = t j; kind = k j; case_value = c j }

-- An edge from block `i`, of this kind, to the block that starts at `x`.
abbrev pub Leads : List CfgBlock → ℕ → ℕ → CfgEdgeKind → CfgEdge → Type 0
Leads blocks i x kind e =
    (e.from ≡ i) × (e.case_value ≡ negsuc 0) × (e.kind ≡ kind) × Starts blocks x e.to

edge_of-Leads :
    (blocks : List CfgBlock) (i x n : ℕ) (kind : CfgEdgeKind) (e : CfgEdge)
    → Starts blocks x n
    → e ≡ edge_of i n kind
    → Leads blocks i x kind e
edge_of-Leads blocks i x n kind e s same = (
  ap (λ e. e.from) same,
  ap (λ e. e.case_value) same,
  ap (λ e. e.kind) same,
  rw (ap (λ e. e.to) same) s,
)

pub if_valid-Leads :
    (blocks : List CfgBlock) (i x : ℕ) (kind : CfgEdgeKind) (e : CfgEdge)
    → IsNumbered blocks
    → Memᴰ e (if_valid blocks i x kind) ↔ Leads blocks i x kind e
if_valid-Leads blocks i x kind e h = elim (number-cases blocks x h) [
  | inl (nowhere, c) ↦
      let none_valid : (block_from 0 blocks x == cfg_invalid) ≡ true = rw c refl in
      rw none_valid (
        λ m. absurd (Memᴰ.not-nil m),
        λ (f, v, k, s). absurd (cc (Starts-starts_block blocks x e.to s, nowhere)),
      )
  | inr (here, valid, s) ↦ rw valid (
    λ m. edge_of-Leads blocks i x (block_from 0 blocks x) kind e s (Memᴰ.eq_of_singleton m),
    λ (f, v, k, s).
        Memᴰ.head
          (edge-eta e i (block_from 0 blocks x) kind f v (sym (Starts-number blocks x e.to h s)) k),
  )
]

-- An edge from block `i` out of the function.
abbrev pub Exits : ℕ → CfgEdgeKind → CfgEdge → Type 0
Exits i kind e = (e.from ≡ i) × (e.case_value ≡ negsuc 0) × (e.kind ≡ kind) × (e.to ≡ cfg_invalid)

pub exit-Exits :
    (i : ℕ) (kind : CfgEdgeKind) (e : CfgEdge)
    → Memᴰ e (edge_of i cfg_invalid kind ∷ []) ↔ Exits i kind e
exit-Exits i kind e = (
  λ m.
      let same = Memᴰ.eq_of_singleton m in
      (
        ap (λ e. e.from) same,
        ap (λ e. e.case_value) same,
        ap (λ e. e.kind) same,
        ap (λ e. e.to) same,
      ),
  λ (f, v, k, t). Memᴰ.head (edge-eta e i cfg_invalid kind f v t k),
)

pub to_or_return-Leads :
    (blocks : List CfgBlock) (i x : ℕ) (kind : CfgEdgeKind) (e : CfgEdge)
    → IsNumbered blocks
    → Memᴰ e (to_or_return blocks i x kind)
      ↔ (Leads blocks i x kind e ⊎ (Exits i edge_return e × (starts_block x blocks ≡ false)))
to_or_return-Leads blocks i x kind e h = elim (number-cases blocks x h) [
  | inl (nowhere, c) ↦
      let none_valid : (block_from 0 blocks x == cfg_invalid) ≡ true = rw c refl in
      rw none_valid (
        λ m. inr ((exit-Exits i edge_return e).0 m, nowhere),
        λ o. elim o [
          | inl (f, v, k, s) ↦ absurd (cc (Starts-starts_block blocks x e.to s, nowhere))
          | inr (exit, _) ↦ (exit-Exits i edge_return e).1 exit
        ],
      )
  | inr (here, valid, s) ↦ rw valid (
    λ m. inl (edge_of-Leads blocks i x (block_from 0 blocks x) kind e s (Memᴰ.eq_of_singleton m)),
    λ o. elim o [
      | inl (f, v, k, s) ↦
          Memᴰ.head (
            edge-eta e i (block_from 0 blocks x) kind f v (sym (Starts-number blocks x e.to h s)) k)
      | inr (exit, nowhere) ↦ absurd (cc (nowhere, here))
    ],
  )
]
