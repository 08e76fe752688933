-- ===== src/Cfg/Edges.antt =====
-- The edges that `wire` adds for a block are those that `IsTransfer` describes.
use mathlib.Core.List.Memᴰ
use mathlib.Core.Path.{subst}
use calynda_for_wii.Base.{ℕ, true, false, List, Memᴰ, ◌≡◌, ◌⊎◌, ◌↔◌, inl, inr, refl, arith}
use calynda_for_wii.Cfg.Graph.{
  CfgBlock, CfgEdge, CfgEdgeKind, edge_fallthrough, edge_uncond, edge_cond_taken,
  edge_cond_not_taken, edge_indirect_unknown, edge_return,
}
use calynda_for_wii.Cfg.Division.{starts_block}
use calynda_for_wii.Cfg.Numbers.{IsNumbered, Starts}
use calynda_for_wii.Cfg.Transfers.{
  if_valid, Ending, jump, cond_branch, return_, indirect, straight, passes, leaves, IsTransfer,
  Leads, Exits, new_edges, if_valid-Leads, to_or_return-Leads, exit-Exits,
}

Leads-IsTransfer :
    (blocks : List CfgBlock) (i x : ℕ) (k : Ending) (target ft : ℕ) (kind : CfgEdgeKind)
    (e : CfgEdge)
    → passes k target ft kind x ≡ true
    → Leads blocks i x kind e
    → IsTransfer blocks i k target ft e
Leads-IsTransfer blocks i x k target ft kind e p (f, v, same, s) =
    (f, v, inl (record { vaddr = x; passes_to = rw same p; starts = s }))

Exits-IsTransfer :
    (blocks : List CfgBlock) (i : ℕ) (k : Ending) (target ft : ℕ) (kind : CfgEdgeKind) (e : CfgEdge)
    → leaves blocks k target ft kind ≡ true
    → Exits i kind e
    → IsTransfer blocks i k target ft e
Exits-IsTransfer blocks i k target ft kind e p (f, v, same, t) = (f, v, inr (t, rw same p))

passes-jump :
    (target ft x : ℕ) (kind : CfgEdgeKind)
    → passes jump target ft kind x ≡ true
    → (kind ≡ edge_uncond) × (x ≡ target)
passes-jump target ft x edge_uncond h = (refl, ground arith)
passes-jump target ft x _ h = cc

passes-straight :
    (target ft x : ℕ) (kind : CfgEdgeKind)
    → passes straight target ft kind x ≡ true
    → (kind ≡ edge_fallthrough) × (x ≡ ft)
passes-straight target ft x edge_fallthrough h = (refl, ground arith)
passes-straight target ft x _ h = cc

passes-cond_branch :
    (target ft x : ℕ) (kind : CfgEdgeKind)
    → passes cond_branch target ft kind x ≡ true
    → ((kind ≡ edge_cond_taken) × (x ≡ target)) ⊎ ((kind ≡ edge_cond_not_taken) × (x ≡ ft))
passes-cond_branch target ft x edge_cond_taken h = inl (refl, ground arith)
passes-cond_branch target ft x edge_cond_not_taken h = inr (refl, ground arith)
passes-cond_branch target ft x _ h = cc

leaves-jump :
    (blocks : List CfgBlock) (target ft : ℕ) (kind : CfgEdgeKind)
    → leaves blocks jump target ft kind ≡ true
    → (kind ≡ edge_return) × (starts_block target blocks ≡ false)
leaves-jump blocks target ft edge_return h = (refl, ground arith)
leaves-jump blocks target ft _ h = cc

leaves-straight :
    (blocks : List CfgBlock) (target ft : ℕ) (kind : CfgEdgeKind)
    → leaves blocks straight target ft kind ≡ true
    → (kind ≡ edge_return) × (starts_block ft blocks ≡ false)
leaves-straight blocks target ft edge_return h = (refl, ground arith)
leaves-straight blocks target ft _ h = cc

leaves-return :
    (blocks : List CfgBlock) (target ft : ℕ) (kind : CfgEdgeKind)
    → leaves blocks return_ target ft kind ≡ true
    → kind ≡ edge_return
leaves-return blocks target ft edge_return h = refl
leaves-return blocks target ft _ h = cc

leaves-indirect :
    (blocks : List CfgBlock) (target ft : ℕ) (kind : CfgEdgeKind)
    → leaves blocks indirect target ft kind ≡ true
    → kind ≡ edge_indirect_unknown
leaves-indirect blocks target ft edge_indirect_unknown h = refl
leaves-indirect blocks target ft _ h = cc

abbrev Same : List CfgBlock → ℕ → Ending → ℕ → ℕ → CfgEdge → Type 0
Same blocks i k target ft e =
    Memᴰ e (new_edges blocks i k target ft) ↔ IsTransfer blocks i k target ft e

jump-Same :
    (blocks : List CfgBlock) (i target ft : ℕ) (e : CfgEdge)
    → IsNumbered blocks
    → Same blocks i jump target ft e
jump-Same blocks i target ft e h = (
  λ m. elim ((to_or_return-Leads blocks i target edge_uncond e h).0 m) [
    | inl l ↦ Leads-IsTransfer blocks i target jump target ft edge_uncond e (ground arith) l
    | inr (x, nowhere) ↦ Exits-IsTransfer blocks i jump target ft edge_return e (rw nowhere refl) x
  ],
  λ (f, v, o). (to_or_return-Leads blocks i target edge_uncond e h).1 (elim o [
    | inl t ↦
        let (k, x) = passes-jump target ft t.vaddr e.kind t.passes_to in
        inl (f, v, k, subst (λ y. Starts blocks y e.to) x t.starts)
    | inr (to, l) ↦
        let (k, nowhere) = leaves-jump blocks target ft e.kind l in inr ((f, v, k, to), nowhere)
  ]),
)

straight-Same :
    (blocks : List CfgBlock) (i target ft : ℕ) (e : CfgEdge)
    → IsNumbered blocks
    → Same blocks i straight target ft e
straight-Same blocks i target ft e h = (
  λ m. elim ((to_or_return-Leads blocks i ft edge_fallthrough e h).0 m) [
    | inl l ↦ Leads-IsTransfer blocks i ft straight target ft edge_fallthrough e (ground arith) l
    | inr (x, nowhere) ↦
        Exits-IsTransfer blocks i straight target ft edge_return e (rw nowhere refl) x
  ],
  λ (f, v, o). (to_or_return-Leads blocks i ft edge_fallthrough e h).1 (elim o [
    | inl t ↦
        let (k, x) = passes-straight target ft t.vaddr e.kind t.passes_to in
        inl (f, v, k, subst (λ y. Starts blocks y e.to) x t.starts)
    | inr (to, l) ↦
        let (k, nowhere) = leaves-straight blocks target ft e.kind l in inr ((f, v, k, to), nowhere)
  ]),
)

cond_branch-Same :
    (blocks : List CfgBlock) (i target ft : ℕ) (e : CfgEdge)
    → IsNumbered blocks
    → Same blocks i cond_branch target ft e
cond_branch-Same blocks i target ft e h =
    let first = if_valid blocks i target edge_cond_taken in
    let second = if_valid blocks i ft edge_cond_not_taken in
    (
      λ m. elim (Memᴰ.append_cases first m) [
        | inl m ↦
            Leads-IsTransfer blocks i target cond_branch target ft edge_cond_taken e (ground arith)
              ((if_valid-Leads blocks i target edge_cond_taken e h).0 m)
        | inr m ↦
            Leads-IsTransfer blocks i ft cond_branch target ft edge_cond_not_taken e (ground arith)
              ((if_valid-Leads blocks i ft edge_cond_not_taken e h).0 m)
      ],
      λ (f, v, o). elim o [
        | inl t ↦ elim (passes-cond_branch target ft t.vaddr e.kind t.passes_to) [
          | inl (k, x) ↦ Memᴰ.append_left second (
              (if_valid-Leads blocks i target edge_cond_taken e h).1
                (f, v, k, subst (λ y. Starts blocks y e.to) x t.starts))
          | inr (k, x) ↦ Memᴰ.append_right first (
              (if_valid-Leads blocks i ft edge_cond_not_taken e h).1
                (f, v, k, subst (λ y. Starts blocks y e.to) x t.starts))
        ]
        | inr (to, l) ↦ absurd (cc l)
      ],
    )

return-Same :
    (blocks : List CfgBlock) (i target ft : ℕ) (e : CfgEdge) → Same blocks i return_ target ft e
return-Same blocks i target ft e = (
  λ m.
      Exits-IsTransfer blocks i return_ target ft edge_return e refl
        ((exit-Exits i edge_return e).0 m),
  λ (f, v, o). elim o [
    | inl t ↦ absurd (cc t.passes_to)
    | inr (to, l) ↦
        (exit-Exits i edge_return e).1 (f, v, leaves-return blocks target ft e.kind l, to)
  ],
)

indirect-Same :
    (blocks : List CfgBlock) (i target ft : ℕ) (e : CfgEdge) → Same blocks i indirect target ft e
indirect-Same blocks i target ft e = (
  λ m.
      Exits-IsTransfer blocks i indirect target ft edge_indirect_unknown e refl
        ((exit-Exits i edge_indirect_unknown e).0 m),
  λ (f, v, o). elim o [
    | inl t ↦ absurd (cc t.passes_to)
    | inr (to, l) ↦
        (exit-Exits i edge_indirect_unknown e).1
          (f, v, leaves-indirect blocks target ft e.kind l, to)
  ],
)

-- The edges that are added for the end of a block are its transfers.
pub new_edges-IsTransfer :
    (blocks : List CfgBlock) (i : ℕ) (k : Ending) (target ft : ℕ) (e : CfgEdge)
    → IsNumbered blocks
    → Memᴰ e (new_edges blocks i k target ft) ↔ IsTransfer blocks i k target ft e
new_edges-IsTransfer blocks i jump target ft e h = jump-Same blocks i target ft e h
new_edges-IsTransfer blocks i cond_branch target ft e h = cond_branch-Same blocks i target ft e h
new_edges-IsTransfer blocks i return_ target ft e h = return-Same blocks i target ft e
new_edges-IsTransfer blocks i indirect target ft e h = indirect-Same blocks i target ft e
new_edges-IsTransfer blocks i straight target ft e h = straight-Same blocks i target ft e h
