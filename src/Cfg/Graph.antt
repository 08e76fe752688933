-- ===== src/Cfg/Graph.antt =====
-- decompiler/include/cli/cfg.h: the graph; decompiler/src/cli/cfg/cfg_build.c: words of the image, and
-- the helpers that look a block up, add a block and add an edge. Each array with its count is a list.
-- Allocations succeed.
use calynda_for_wii.Base.{
  ℕ, suc, Bool, false, Option, none, some, List, [], ◌∷◌, ◌++◌, ltb, ◌==◌, if◌then◌else◌, length,
}
use calynda_for_wii.Base.Int.{ℤ}
use calynda_for_wii.Dol.{DolImage, read_u32_be, dol_vaddr_to_ptr}

abbrev pub cfg_invalid : ℕ
cfg_invalid = 0xFFFFFFFF

pub data CfgEdgeKind : Type 0 where
  edge_fallthrough edge_uncond edge_cond_taken edge_cond_not_taken : CfgEdgeKind
  edge_switch_case edge_switch_default edge_indirect_unknown edge_return : CfgEdgeKind

pub data CfgRegionKind : Type 0 where
  region_linear region_if region_if_else region_loop region_switch region_unstructured :
      CfgRegionKind

pub record CfgEdge : Type 0 where
  pub from : ℕ
  pub to : ℕ
  pub kind : CfgEdgeKind
  pub case_value : ℤ

pub record CfgBlock : Type 0 where
  pub start_vaddr : ℕ
  pub end_vaddr : ℕ
  pub insn_count : ℕ
  pub idom : ℕ
  pub is_loop_header : Bool
  pub is_loop_exit : Bool
  pub loop_depth : ℕ
  pub region_kind : CfgRegionKind
  pub if_merge : ℕ

pub record CfgSwitchCase : Type 0 where
  pub case_value : ℕ
  pub target_vaddr : ℕ

pub record CfgSwitch : Type 0 where
  pub block_index : ℕ
  pub table_vaddr : ℕ
  pub default_vaddr : ℕ
  pub cases : List CfgSwitchCase

pub record Cfg : Type 0 where
  pub blocks : List CfgBlock
  pub edges : List CfgEdge
  pub switches : List CfgSwitch
  pub entry_block : ℕ
  pub is_irreducible : Bool

-- `none` says that the address has no four bytes in the image.
unfoldable pub cfg_read_word : DolImage → ℕ → Option ℕ
cfg_read_word img vaddr = elim (dol_vaddr_to_ptr img vaddr) [
  | none ↦ none
  | some (at, rem) ↦ if ltb rem 4 then none else some (read_u32_be img.bytes at)
]

-- The loop over the blocks, of which the next is number `i`.
abbrev pub block_from : ℕ → List CfgBlock → ℕ → ℕ
block_from i [] vaddr = cfg_invalid
block_from i (b ∷ blocks) vaddr =
    if b.start_vaddr == vaddr then i else block_from (suc i) blocks vaddr

unfoldable pub cfg_block_of_vaddr : Cfg → ℕ → ℕ
cfg_block_of_vaddr cfg vaddr = block_from 0 cfg.blocks vaddr

-- The new block, and its number.
unfoldable pub cfg_add_block : Cfg → ℕ → Cfg × ℕ
cfg_add_block cfg start_vaddr = (
  record cfg {
    blocks =
        cfg.blocks
        ++ record {
          start_vaddr = start_vaddr;
          end_vaddr = 0;
          insn_count = 0;
          idom = cfg_invalid;
          is_loop_header = false;
          is_loop_exit = false;
          loop_depth = 0;
          region_kind = region_linear;
          if_merge = cfg_invalid;
        }
          ∷ [];
  },
  length cfg.blocks,
)

unfoldable pub cfg_add_edge : Cfg → ℕ → ℕ → CfgEdgeKind → ℤ → Cfg
cfg_add_edge cfg from to kind case_value = record cfg {
  edges = cfg.edges ++ record { from = from; to = to; kind = kind; case_value = case_value } ∷ [];
}
