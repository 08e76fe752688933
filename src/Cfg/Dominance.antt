-- ===== src/Cfg/Dominance.antt =====
-- decompiler/src/cli/cfg/cfg_dominance.c: the reverse post-order of the blocks.
-- Allocations succeed, so that the functions return no status. The array `order` with its count is a
-- list.
use calynda_for_wii.Cfg.Graph.{cfg_invalid, Cfg, CfgEdge}
use calynda_for_wii.Base.{
  ℕ, zero, suc, ◌-◌, ◌/◌, Bool, true, false, Option, none, some, List, [], ◌∷◌, ◌++◌, length,
  get_or, set, replicate, if◌then◌else◌, ◌==◌, ◌>>=◌,
}

pub record Rpo : Type 0 where
  pub order : List ℕ
  pub pos : List ℕ

-- The array `seen` and the post-order so far.
pub record Search : Type 0 where
  pub seen : List Bool
  pub order : List ℕ

abbrev pub mark : ℕ → Search → Search
mark bi s = record s { seen = set s.seen bi true }

abbrev pub finish : ℕ → Search → Search
finish bi s = record s { order = s.order ++ bi ∷ [] }

-- The loop over the edges, with the search from a successor.
abbrev pub visit : (ℕ → Search → Option Search) → ℕ → List CfgEdge → Search → Option Search
visit search bi [] s = some s
visit search bi (e ∷ edges) s =
    (if e.from == bi then if e.to == cfg_invalid then some s else search e.to s else some s)
    >>= visit search bi edges

-- The fuel is for the depth of the recursion; `none` says that it ran out.
unfoldable pub dfs_post : ℕ → Cfg → ℕ → Search → Option Search
dfs_post zero cfg bi s = none
dfs_post (suc fuel) cfg bi s =
    let search = dfs_post fuel cfg in
    elim (get_or s.seen bi false) [
      | true ↦ some s
      | false ↦ visit search bi cfg.edges (mark bi s) >>= λ after. some (finish bi after)
    ]

abbrev pub swap : List ℕ → ℕ → ℕ → List ℕ
swap order i j = set (set order i (get_or order j 0)) j (get_or order i 0)

-- The loop that turns the array round, of which `rounds` are left.
unfoldable pub turn_round : ℕ → ℕ → List ℕ → List ℕ
turn_round zero i order = order
turn_round (suc rounds) i order = turn_round rounds (suc i) (swap order i (length order - 1 - i))

-- The loop over the order, from position `i` on.
unfoldable pub fill_pos : List ℕ → ℕ → List ℕ → List ℕ
fill_pos [] i pos = pos
fill_pos (b ∷ order) i pos = fill_pos order (suc i) (set pos b i)

unfoldable pub build_rpo : Cfg → Option Rpo
build_rpo cfg =
    let nb = length cfg.blocks in
    dfs_post (suc nb) cfg cfg.entry_block (record { seen = replicate nb false; order = [] })
    >>= λ s.
        let order = turn_round (length s.order / 2) 0 s.order in
        some (record { order = order; pos = fill_pos order 0 (replicate nb cfg_invalid) })
