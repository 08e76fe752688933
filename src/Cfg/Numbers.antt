-- ===== src/Cfg/Numbers.antt =====
-- The number of a block, and the block with that number.
use calynda_for_wii.Base.{
  or-cases, ◌∙◌, ℕ, zero, suc, ◌+◌, ◌*◌, ◌^◌, ◌≤◌, ◌<◌, true, false, Option, none, some, List, [],
  ◌∷◌, ◌==◌, length, ◌≡◌, ◌⊎◌, inl, inr, refl, arith, Bool-cases,
}
use calynda_for_wii.Cfg.Graph.{CfgBlock, cfg_invalid, block_from}
use calynda_for_wii.Cfg.Division.{Tiled, starts_block}

-- The block with this number.
abbrev pub block_at : ℕ → List CfgBlock → Option CfgBlock
block_at i [] = none
block_at zero (b ∷ blocks) = some b
block_at (suc i) (b ∷ blocks) = block_at i blocks

-- Each block is found by its start, and its number fits.
pub record IsNumbered (blocks : List CfgBlock) : Type 0 where
  pub few : length blocks < cfg_invalid
  pub unique :
      (i : ℕ) (b : CfgBlock) → block_at i blocks ≡ some b → block_from 0 blocks b.start_vaddr ≡ i

-- Some block starts at this address, and this is its number.
pub record Starts (blocks : List CfgBlock) (x n : ℕ) : Type 0 where
  pub block : CfgBlock
  pub is_at : block_at n blocks ≡ some block
  pub start_is : block.start_vaddr ≡ x

block_from-cases :
    (k : ℕ) (blocks : List CfgBlock) (x : ℕ)
    → ((starts_block x blocks ≡ false) × (block_from k blocks x ≡ cfg_invalid))
      ⊎ ((j : ℕ) × (block_from k blocks x ≡ k + j)
          × (j < length blocks)
          × (starts_block x blocks ≡ true)
          × Starts blocks x j)
block_from-cases k [] x = inl (refl, refl)
block_from-cases k (b ∷ blocks) x = elim (Bool-cases (b.start_vaddr == x)) [
  | inl same ↦ inr (
    0,
    rw same (omega arith),
    omega arith,
    ground (arith, same),
    record { block = b; is_at = refl; start_is = ground (arith, same) },
  )
  | inr other ↦ elim (block_from-cases (suc k) blocks x) [
    | inl (nowhere, c) ↦ inl (ground (arith, nowhere, other), rw other c)
    | inr (j, c, below, here, s) ↦ inr (
      suc j,
      rw other (c ∙ omega arith),
      omega (arith, below),
      ground (arith, here),
      record { block = s.block; is_at = s.is_at; start_is = s.start_is },
    )
  ]
]

-- Which number the look-up gives.
pub number-cases :
    (blocks : List CfgBlock) (x : ℕ)
    → IsNumbered blocks
    → ((starts_block x blocks ≡ false) × (block_from 0 blocks x ≡ cfg_invalid))
      ⊎ ((starts_block x blocks ≡ true)
          × ((block_from 0 blocks x == cfg_invalid) ≡ false)
          × Starts blocks x (block_from 0 blocks x))
number-cases blocks x h = elim (block_from-cases 0 blocks x) [
  | inl (nowhere, c) ↦ inl (nowhere, c)
  | inr (j, c, below, here, s) ↦
      let number : block_from 0 blocks x ≡ j = omega (arith, c) in
      inr (here, rw number (ground (arith, below, h.few)), rw number s)
]

pub Starts-number :
    (blocks : List CfgBlock) (x n : ℕ)
    → IsNumbered blocks
    → Starts blocks x n
    → block_from 0 blocks x ≡ n
Starts-number blocks x n h s = rw (← s.start_is) (h.unique n s.block s.is_at)

pub Starts-somewhere :
    (blocks : List CfgBlock) (i : ℕ) (b : CfgBlock)
    → block_at i blocks ≡ some b
    → starts_block b.start_vaddr blocks ≡ true
Starts-somewhere [] i b e = cc
Starts-somewhere (c ∷ blocks) zero b e = let same : c ≡ b = cc in rw same (ground arith)
Starts-somewhere (c ∷ blocks) (suc i) b e = ground (arith, Starts-somewhere blocks i b e)

pub Starts-starts_block :
    (blocks : List CfgBlock) (x n : ℕ) → Starts blocks x n → starts_block x blocks ≡ true
Starts-starts_block blocks x n s = rw (← s.start_is) (Starts-somewhere blocks n s.block s.is_at)

-- Blocks that follow each other start at different addresses.
pub Tiled-above :
    (low end x : ℕ) (blocks : List CfgBlock)
    → Tiled low end blocks
    → starts_block x blocks ≡ true
    → low ≤ x
Tiled-above low end x [] t m = ground arith
Tiled-above low end x (b ∷ blocks) (first, some_in, ends, rest) m =
    elim (or-cases (x == b.start_vaddr) (starts_block x blocks) m) [
      | inl here ↦ ground (arith, here, first)
      | inr later ↦ omega (arith, Tiled-above b.end_vaddr end x blocks rest later, ends, some_in)
    ]

Tiled-unique :
    (k low end : ℕ) (blocks : List CfgBlock) (i : ℕ) (b : CfgBlock)
    → Tiled low end blocks
    → block_at i blocks ≡ some b
    → block_from k blocks b.start_vaddr ≡ k + i
Tiled-unique k low end [] i b t e = cc
Tiled-unique k low end (c ∷ blocks) zero b t e = let same : c ≡ b = cc in rw same (ground arith)
Tiled-unique k low end (c ∷ blocks) (suc i) b (first, some_in, ends, rest) e =
    let above =
      Tiled-above c.end_vaddr end b.start_vaddr blocks rest (Starts-somewhere blocks i b e) in
    let other : (c.start_vaddr == b.start_vaddr) ≡ false =
      ground (arith, above, ends, some_in, first) in
    rw other (Tiled-unique (suc k) c.end_vaddr end blocks i b rest e ∙ omega arith)

Tiled-length :
    (low end : ℕ) (blocks : List CfgBlock) → Tiled low end blocks → low + 4 * length blocks ≤ end
Tiled-length low end [] t = omega (arith, t)
Tiled-length low end (b ∷ blocks) (first, some_in, ends, rest) =
    omega (arith, some_in, ends, Tiled-length b.end_vaddr end blocks rest)

pub Tiled-IsNumbered :
    (low end : ℕ) (blocks : List CfgBlock) → end < 2 ^ 32 → Tiled low end blocks → IsNumbered blocks
Tiled-IsNumbered low end blocks small t = record {
  few = omega (arith, small, Tiled-length low end blocks t);
  unique = λ i b e. Tiled-unique 0 low end blocks i b t e ∙ omega arith;
}
