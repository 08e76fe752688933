-- ===== src/Cfg/Whole.antt =====
-- What `cfg_build` has built when its analyses begin.
use calynda_for_wii.Cfg.Scan.{Unreadable}
use mathlib.Core.Path.{subst}
use calynda_for_wii.Base.{
  ◌∙◌, Option-cases, ℕ, ◌-◌, ◌%◌, ◌^◌, ◌≤◌, ◌<◌, true, not, ◌||◌, none, some, List, [], ◌∷◌, ◌==◌,
  leb, ltb, All, Memᴰ, mem, ◌≡◌, ◌⊎◌, ◌↔◌, inl, inr, refl, sym, ap, arith, Bool-cases,
}
use calynda_for_wii.Dol.{DolImage}
use calynda_for_wii.Cfg.Graph.{Cfg, CfgBlock, CfgEdge, cfg_read_word, cfg_invalid}
use calynda_for_wii.Cfg.Build.{split_and_wire, zero_cfg, build_blocks}
use calynda_for_wii.Cfg.Order.{chain}
use calynda_for_wii.Cfg.Begins.{Begins}
use calynda_for_wii.Cfg.Division.{
  IsRange, IsLeaders, Tiled, starts_block, blocks_of, blocks_of-starts, blocks_of-Tiled, leader_lem,
  collect_leaders-cases, split_lem,
}
use calynda_for_wii.Cfg.Numbers.{Tiled-IsNumbered, block_at, Starts}
use calynda_for_wii.Cfg.Wired.{IsEdge, IsReady, wire_lem}
use mathlib.Core.List.Memᴰ

-- The blocks follow each other from start to end; one begins at the start and wherever a decoded `b`,
-- `ba`, `bc`, `blr` or `bctr` makes one begin, and nowhere else; the edges are those that `IsEdge`
-- gives the last instructions of the blocks; and the entry block starts where the function does.
pub record IsGraph (img : DolImage) (start end : ℕ) (cfg : Cfg) : Type 0 where
  pub tiled : Tiled start end cfg.blocks
  pub begins :
      (x : ℕ) → (starts_block x cfg.blocks ≡ true) ↔ ((x ≡ start) ⊎ Begins img start end start x)
  pub edges_are : (e : CfgEdge) → Memᴰ e cfg.edges ↔ IsEdge img cfg.blocks e
  pub entry_is : Starts cfg.blocks start cfg.entry_block

chain-above : (x y : ℕ) (l : List ℕ) → chain ltb (x ∷ l) ≡ true → mem y (x ∷ l) ≡ true → x ≤ y
chain-above x y [] c m = ground arith
chain-above x y (z ∷ l) c m = ground (arith, chain-above z y l)

-- The first leader is the start of the range.
IsLeaders-first :
    (img : DolImage) (start end : ℕ) (leaders : List ℕ)
    → IsRange start end
    → IsLeaders img start end leaders
    → (rest : List ℕ) × (leaders ≡ start ∷ rest)
IsLeaders-first img start end [] r l = absurd (cc ((l.begins start).1 (inl refl)))
IsLeaders-first img start end (x ∷ rest) r l =
    let above = chain-above x start rest l.ascending ((l.begins start).1 (inl refl)) in
    let (below, _, _) = leader_lem img start end x (x ∷ rest) r l (ground arith) in
    let same : x ≡ start = omega (arith, above, below) in (rest, ap (λ y. y ∷ rest) same)

last_read :
    (img : DolImage) (start end va : ℕ)
    → ¬ Unreadable img start end
    → start ≤ va
    → va < end
    → va % 4 ≡ 0
    → (w : ℕ) × (cfg_read_word img va ≡ some w)
last_read img start end va all from below aligned = elim (Option-cases (cfg_read_word img va)) [
  | inl unread ↦ absurd (
      all
        (record { va = va; from_low = from; in_range = below; aligned = aligned; unread = unread }))
  | inr read ↦ read
]

pub Tiled-below : (low end : ℕ) (blocks : List CfgBlock) → Tiled low end blocks → low ≤ end
Tiled-below low end [] t = omega (arith, t)
Tiled-below low end (b ∷ blocks) (first, some_in, ends, rest) =
    omega (arith, ends, Tiled-below b.end_vaddr end blocks rest)

Tiled-IsReady :
    (img : DolImage) (start low end : ℕ) (blocks : List CfgBlock)
    → end < 2 ^ 32
    → ¬ Unreadable img start end
    → start ≤ low
    → low % 4 ≡ 0
    → Tiled low end blocks
    → All (IsReady img) blocks
Tiled-IsReady img start low end [] small all from aligned t = tt
Tiled-IsReady img start low end (b ∷ blocks) small all from aligned (first, some_in, ends, rest) =
    let below = Tiled-below b.end_vaddr end blocks rest in
    let (w, read) =
      last_read img start end (b.end_vaddr - 4) all (omega (arith, from, ends, some_in))
        (omega (arith, below, ends, some_in)) (omega (arith, ends, aligned, some_in)) in
    (
      record {
        has_last = omega (arith, ends, some_in);
        small = omega (arith, below, small);
        word = w;
        read = read;
      },
      Tiled-IsReady img start b.end_vaddr end blocks small all (omega (arith, from, ends))
          (omega (arith, ends, aligned)) rest,
    )

split_and_wire-IsGraph :
    (img : DolImage) (start end : ℕ) (rest : List ℕ)
    → IsRange start end
    → IsLeaders img start end (start ∷ rest)
    → (cfg : Cfg) × (split_and_wire img
          (record zero_cfg { entry_block = cfg_invalid })
          end
          (start ∷ rest)
        ≡ some cfg)
      × IsGraph img start end cfg
unfolding split_and_wire
split_and_wire-IsGraph img start end rest r l =
    let blocks = blocks_of (start ∷ rest) end in
    let base : Cfg = record zero_cfg { blocks = blocks } in
    let tiled : Tiled start end blocks =
      blocks_of-Tiled start rest end r.small r.end_whole l.ascending
        (λ y m. let k = leader_lem img start end y (start ∷ rest) r l m in (k.1, k.2)) in
    let ready =
      Tiled-IsReady img start start end blocks r.small l.all_read (omega arith) r.start_whole
        tiled in
    let (edges, done, wired) =
      wire_lem img base 0 blocks (Tiled-IsNumbered start end blocks r.small tiled) ready
        (λ j. ap (λ k. block_at k blocks) (omega arith)) in
    (
      record base { edges = edges },
      rw split_lem done,
      record {
        tiled = tiled;
        begins = λ x.
            let same = blocks_of-starts x (start ∷ rest) end in
            (λ h. (l.begins x).0 (sym same ∙ h), λ o. same ∙ (l.begins x).1 o);
        edges_are = λ e. (
          λ m. elim ((wired.edges_are e).0 m) [
            | inl none_yet ↦ absurd (Memᴰ.not-nil none_yet)
            | inr (edge, _) ↦ edge
          ],
          λ edge. (wired.edges_are e).1 (inr (edge, omega arith)),
        );
        entry_is = record { block = _; is_at = refl; start_is = refl };
      },
    )

-- `cfg_build` refuses a range that is empty or does not start and end at words, and a range of which
-- a word is not in the image.
pub build_blocks-cases :
    (img : DolImage) (start end : ℕ)
    → end < 2 ^ 32
    → (((¬ IsRange start end) ⊎ Unreadable img start end) × (build_blocks img start end ≡ none))
      ⊎ (IsRange start end
          × (¬ Unreadable img start end)
          × (cfg : Cfg) × (build_blocks img start end ≡ some cfg)
          × IsGraph img start end cfg)
unfolding build_blocks
build_blocks-cases img start end small =
    elim (Bool-cases (leb end start || not (start % 4 == 0) || not (end % 4 == 0))) [
      | inl bad ↦
          inl (inl (λ r. ground (arith, bad, r.nonempty, r.start_whole, r.end_whole)), rw bad refl)
      | inr good ↦
          let r : IsRange start end = record {
            nonempty = ground (arith, good);
            small = small;
            start_whole = ground (arith, good);
            end_whole = ground (arith, good);
          } in
          elim (collect_leaders-cases img start end r) [
            | inl (u, c) ↦ inl (inr u, rw (good, c) refl)
            | inr (leaders, c, l) ↦
                let (rest, first) = IsLeaders-first img start end leaders r l in
                let (cfg, done, graph) =
                  split_and_wire-IsGraph img start end rest r
                    (subst (IsLeaders img start end) {y = start ∷ rest} first l) in
                inr (r, l.all_read, cfg, rw (good, c, first) done, graph)
          ]
    ]

-- A range of words that are all in the image becomes a graph. Its blocks follow each other from start
-- to end and begin exactly at the start of the range, at the targets in it of the words decoded as
-- `b`, `ba` or `bc`, and behind the words decoded as one of these, `blr` or `bctr`, but for the last
-- word of the range. A block has just the edges that its last word, as it is decoded, gives: `b` and
-- `ba` one to the block at the target, or a return edge if no block starts there; `bc` one to the
-- block at the target and one to the block behind it, and none for a side where no block starts;
-- `blr` a return edge; `bctr` an edge of an unknown jump; every other word, calls and words decoded
-- as unknown included, one to the block behind it, or a return edge at the end of the range. The
-- entry block starts the range.
pub build_blocks-IsGraph :
    (img : DolImage) (start end : ℕ)
    → IsRange start end
    → ¬ Unreadable img start end
    → (cfg : Cfg) × (build_blocks img start end ≡ some cfg) × IsGraph img start end cfg
build_blocks-IsGraph img start end r all = elim (build_blocks-cases img start end r.small) [
  | inl (inl bad, c) ↦ absurd (bad r)
  | inl (inr u, c) ↦ absurd (all u)
  | inr (_, _, cfg, done, graph) ↦ (cfg, done, graph)
]

-- No graph is built exactly where the range is empty or does not start and end at words, or a word of
-- it is not in the image.
pub build_blocks_refuses :
    (img : DolImage) (start end : ℕ)
    → end < 2 ^ 32
    → (build_blocks img start end ≡ none) ↔ ((¬ IsRange start end) ⊎ Unreadable img start end)
build_blocks_refuses img start end small = elim (build_blocks-cases img start end small) [
  | inl (why, c) ↦ (λ e. why, λ o. c)
  | inr (r, all, cfg, done, graph) ↦
      (λ e. cc, λ o. elim o [ inl bad ↦ absurd (bad r) | inr u ↦ absurd (all u) ])
]
