-- ===== src/Cfg/Division.antt =====
-- The leaders of a range, and the blocks that they divide it into.
use calynda_for_wii.Cfg.Scan.{scan-cases, Unreadable}
use calynda_for_wii.Base.{
  or-right, append_assoc, append-nil, get_or, set, ◌*◌, ap, ◌∙◌, ◌↔◌, sym, ℕ, suc, ◌+◌, ◌-◌, ◌/◌,
  ◌%◌, ◌^◌, ◌≤◌, ◌<◌, Bool, true, false, ◌||◌, none, some, List, [], ◌∷◌, ◌++◌, ltb, ◌==◌, length,
  mem, ◌≡◌, ◌⊎◌, inl, inr, refl, arith,
}
use calynda_for_wii.Dol.{DolImage}
use calynda_for_wii.Cfg.Graph.{region_linear, cfg_add_block, cfg_invalid, Cfg, CfgBlock}
use calynda_for_wii.Cfg.Leaders.{sort, dedupe, collect_leaders}
use calynda_for_wii.Ppc.Aligned.{ppc_decode-HasAlignedTarget}
use calynda_for_wii.Cfg.Build.{append_block, split, next_leader}
use calynda_for_wii.Cfg.Order.{chain, leaders-chain, leaders-mem}
use calynda_for_wii.Cfg.Begins.{Begins}

-- The range is not empty, and it starts and ends at words.
pub record IsRange (start end : ℕ) : Type 0 where
  pub nonempty : start < end
  pub small : end < 2 ^ 32
  pub start_whole : start % 4 ≡ 0
  pub end_whole : end % 4 ≡ 0

pub record IsLeaders (img : DolImage) (start end : ℕ) (leaders : List ℕ) : Type 0 where
  pub ascending : chain ltb leaders ≡ true
  pub all_read : ¬ Unreadable img start end
  pub begins : (x : ℕ) → (mem x leaders ≡ true) ↔ ((x ≡ start) ⊎ Begins img start end start x)

pub collect_leaders-cases :
    (img : DolImage) (start end : ℕ)
    → IsRange start end
    → (Unreadable img start end × (collect_leaders img start end ≡ none))
      ⊎ ((leaders : List ℕ) × (collect_leaders img start end ≡ some leaders)
          × IsLeaders img start end leaders)
unfolding collect_leaders
collect_leaders-cases img start end r =
    elim (scan-cases (suc ((end - start) / 4)) img start end start (start ∷ []) r.small r.end_whole
      (omega arith) (omega (arith, r.nonempty)) r.start_whole (omega (arith, r.nonempty))) [
        | inl (u, c) ↦ inl (u, rw c refl)
        | inr (out, c, scanned) ↦ inr (
          dedupe (sort out),
          rw c refl,
          record {
            ascending = leaders-chain out;
            all_read = scanned.all_read;
            begins = λ x. (
              λ m. elim ((scanned.found x).0 (sym (leaders-mem x out) ∙ m)) [
                | inl first ↦ inl (ground (arith, first))
                | inr b ↦ inr b
              ],
              λ h.
                  leaders-mem x out
                  ∙ (scanned.found x).1
                      (elim h [ inl first ↦ inl (ground (arith, first)) | inr b ↦ inr b ]),
            );
          },
        )
      ]

-- What a leader is: a word of the range.
pub leader_lem :
    (img : DolImage) (start end x : ℕ) (leaders : List ℕ)
    → IsRange start end
    → IsLeaders img start end leaders
    → mem x leaders ≡ true
    → (start ≤ x) × (x < end) × (x % 4 ≡ 0)
leader_lem img start end x leaders r l m = elim ((l.begins x).0 m) [
  | inl first ↦ omega (arith, first, r.nonempty, r.start_whole)
  | inr b ↦
      let target = ppc_decode-HasAlignedTarget b.word b.va b.aligned in
      ground (arith, b.splits, b.aligned, target)
]

-- The block from `start_va` up to `end_va`, as `split_and_wire` leaves it.
abbrev pub new_block : ℕ → ℕ → CfgBlock
new_block start_va end_va = record {
  start_vaddr = start_va;
  end_vaddr = end_va;
  insn_count = (end_va + 2 ^ 32 - start_va) % 2 ^ 32 / 4;
  idom = cfg_invalid;
  is_loop_header = false;
  is_loop_exit = false;
  loop_depth = 0;
  region_kind = region_linear;
  if_merge = cfg_invalid;
}

abbrev pub blocks_of : List ℕ → ℕ → List CfgBlock
blocks_of [] end = []
blocks_of (x ∷ leaders) end = new_block x (next_leader leaders end) ∷ blocks_of leaders end

set_last : {A : Type 0} (l : List A) (x y : A) → set (l ++ x ∷ []) (length l) y ≡ l ++ y ∷ []
set_last [] x y = refl
set_last (z ∷ l) x y = ap (◌∷◌ z) (set_last l x y)

get_last : {A : Type 0} (l : List A) (x d : A) → get_or (l ++ x ∷ []) (length l) d ≡ x
get_last [] x d = refl
get_last (z ∷ l) x d = get_last l x d

append_block_lem :
    (cfg : Cfg) (a b : ℕ)
    → append_block cfg a b ≡ record cfg { blocks = cfg.blocks ++ new_block a b ∷ [] }
unfolding append_block cfg_add_block
append_block_lem cfg a b = rw (get_last, set_last) refl

pub split_lem :
    (cfg : Cfg) (leaders : List ℕ) (end : ℕ)
    → split cfg leaders end ≡ record cfg { blocks = cfg.blocks ++ blocks_of leaders end }
unfolding split
split_lem cfg [] end = ap (λ l. record cfg { blocks = l }) (sym (append-nil cfg.blocks))
split_lem cfg (x ∷ leaders) end =
    let b = new_block x (next_leader leaders end) in
    ap (λ c. split c leaders end) (append_block_lem cfg x (next_leader leaders end))
    ∙ split_lem (record cfg { blocks = cfg.blocks ++ b ∷ [] }) leaders end
    ∙ ap (λ l. record cfg { blocks = l }) (append_assoc cfg.blocks (b ∷ []) (blocks_of leaders end))

-- The blocks follow each other from `low` to `end`, none of them empty, and each counts its
-- instructions.
abbrev pub Tiled : ℕ → ℕ → List CfgBlock → Type 0
Tiled low end [] = low ≡ end
Tiled low end (b ∷ blocks) =
    (b.start_vaddr ≡ low)
    × (0 < b.insn_count)
    × (b.end_vaddr ≡ low + 4 * b.insn_count)
    × Tiled b.end_vaddr end blocks

-- Some block starts at this address.
abbrev pub starts_block : ℕ → List CfgBlock → Bool
starts_block x [] = false
starts_block x (b ∷ blocks) = x == b.start_vaddr || starts_block x blocks

pub blocks_of-starts :
    (x : ℕ) (leaders : List ℕ) (end : ℕ) → starts_block x (blocks_of leaders end) ≡ mem x leaders
blocks_of-starts x [] end = refl
blocks_of-starts x (y ∷ leaders) end = ground (arith, blocks_of-starts x leaders end)

new_block_lem :
    (a b : ℕ)
    → a < b
    → b < 2 ^ 32
    → a % 4 ≡ 0
    → b % 4 ≡ 0
    → (0 < (new_block a b).insn_count) × (b ≡ a + 4 * (new_block a b).insn_count)
new_block_lem a b h small ha hb = omega (arith, h, small, ha, hb)

self_mem : (x : ℕ) (l : List ℕ) → mem x (x ∷ l) ≡ true
self_mem x l = ground arith

pub blocks_of-Tiled :
    (x : ℕ) (leaders : List ℕ) (end : ℕ)
    → end < 2 ^ 32
    → end % 4 ≡ 0
    → chain ltb (x ∷ leaders) ≡ true
    → ((y : ℕ) → mem y (x ∷ leaders) ≡ true → (y < end) × (y % 4 ≡ 0))
    → Tiled x end (blocks_of (x ∷ leaders) end)
blocks_of-Tiled x [] end small whole c h =
    let (below, aligned) = h x (self_mem x []) in
    let (some_in, ends) = new_block_lem x end below small aligned whole in
    (refl, some_in, ends, refl)
blocks_of-Tiled x (z ∷ leaders) end small whole c h =
    let (below, aligned) = h x (self_mem x (z ∷ leaders)) in
    let later =
      λ (y : ℕ) (m : mem y (z ∷ leaders) ≡ true). h y (or-right (y == x) (mem y (z ∷ leaders)) m) in
    let (below', aligned') = later z (self_mem z leaders) in
    let (some_in, ends) =
      new_block_lem x z (ground (arith, c)) (omega (arith, below', small)) aligned aligned' in
    (refl, some_in, ends, blocks_of-Tiled z leaders end small whole (ground (arith, c)) later)
