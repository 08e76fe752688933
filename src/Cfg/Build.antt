-- ===== src/Cfg/Build.antt =====
-- decompiler/src/cli/cfg/cfg_build.c: `split_and_wire`, and `cfg_build` up to the analyses of the
-- graph.
use calynda_for_wii.Base.{
  ℕ, suc, ◌+◌, ◌-◌, ◌/◌, ◌%◌, ◌^◌, false, not, ◌||◌, Option, none, some, List, [], ◌∷◌, leb, ◌==◌,
  if◌then◌else◌, get_or, set, ◌>>=◌,
}
use calynda_for_wii.Base.Int.{negsuc}
use calynda_for_wii.Dol.{DolImage}
use calynda_for_wii.Ppc.Op.{PpcOp, op_b, op_ba, op_bc, op_blr, op_bctr}
use calynda_for_wii.Ppc.Decode.{ppc_decode}
use calynda_for_wii.Cfg.Graph.{
  Cfg, CfgBlock, CfgEdgeKind, cfg_invalid, cfg_read_word, cfg_block_of_vaddr, cfg_add_block,
  cfg_add_edge, edge_fallthrough, edge_uncond, edge_cond_taken, edge_cond_not_taken,
  edge_indirect_unknown, edge_return, region_linear,
}
use calynda_for_wii.Cfg.Leaders.{collect_leaders}

-- What `memset` makes.
abbrev pub zero_block : CfgBlock
zero_block = record {
  start_vaddr = 0;
  end_vaddr = 0;
  insn_count = 0;
  idom = 0;
  is_loop_header = false;
  is_loop_exit = false;
  loop_depth = 0;
  region_kind = region_linear;
  if_merge = 0;
}

-- A block from `start_va` up to `end_va`.
unfoldable pub append_block : Cfg → ℕ → ℕ → Cfg
append_block cfg start_va end_va =
    let (added, idx) = cfg_add_block cfg start_va in
    record added {
      blocks = set added.blocks idx (record (get_or added.blocks idx zero_block) {
        end_vaddr = end_va;
        insn_count = (end_va + 2 ^ 32 - start_va) % 2 ^ 32 / 4;
      });
    }

-- `(i + 1 < nl) ? leaders[i+1] : end`
abbrev pub next_leader : List ℕ → ℕ → ℕ
next_leader [] end = end
next_leader (x ∷ leaders) end = x

unfoldable pub split : Cfg → List ℕ → ℕ → Cfg
split cfg [] end = cfg
split cfg (x ∷ leaders) end = split (append_block cfg x (next_leader leaders end)) leaders end

-- `if (to != CFG_INVALID) cfg_add_edge(cfg, from, to, kind, -1)`
abbrev pub edge_if_valid : Cfg → ℕ → ℕ → CfgEdgeKind → Cfg
edge_if_valid cfg from to kind =
    if to == cfg_invalid then cfg else cfg_add_edge cfg from to kind (negsuc 0)

-- An edge to a block, or a return where there is none.
abbrev pub edge_or_return : Cfg → ℕ → ℕ → CfgEdgeKind → Cfg
edge_or_return cfg from to kind =
    if to == cfg_invalid
    then cfg_add_edge cfg from cfg_invalid edge_return (negsuc 0)
    else cfg_add_edge cfg from to kind (negsuc 0)

-- The edges of block `i` that ends in the operation `op` with this target, and before `ft`.
abbrev pub wire_last : PpcOp → Cfg → ℕ → ℕ → ℕ → Cfg
wire_last op_b cfg i target ft = edge_or_return cfg i (cfg_block_of_vaddr cfg target) edge_uncond
wire_last op_ba cfg i target ft = edge_or_return cfg i (cfg_block_of_vaddr cfg target) edge_uncond
wire_last op_bc cfg i target ft =
    let ft_idx = cfg_block_of_vaddr cfg ft in
    edge_if_valid (edge_if_valid cfg i (cfg_block_of_vaddr cfg target) edge_cond_taken) i ft_idx
      edge_cond_not_taken
wire_last op_blr cfg i target ft = cfg_add_edge cfg i cfg_invalid edge_return (negsuc 0)
wire_last op_bctr cfg i target ft = cfg_add_edge cfg i cfg_invalid edge_indirect_unknown (negsuc 0)
wire_last _ cfg i target ft = edge_or_return cfg i (cfg_block_of_vaddr cfg ft) edge_fallthrough

-- The loop over the blocks, of which `i` is the next, at the head of the list.
unfoldable pub wire : DolImage → Cfg → ℕ → List CfgBlock → Option Cfg
wire img cfg i [] = some cfg
wire img cfg i (b ∷ blocks) =
    let last_va = (b.end_vaddr + 2 ^ 32 - 4) % 2 ^ 32 in
    cfg_read_word img last_va >>= λ w.
    let in_ = ppc_decode w last_va in
    wire img (wire_last in_.op cfg i in_.target b.end_vaddr) (suc i) blocks

unfoldable pub split_and_wire : DolImage → Cfg → ℕ → List ℕ → Option Cfg
split_and_wire img cfg end leaders =
    let divided = record (split cfg leaders end) { entry_block = 0 } in
    wire img divided 0 divided.blocks

abbrev pub zero_cfg : Cfg
zero_cfg = record {
  blocks = [];
  edges = [];
  switches = [];
  entry_block = 0;
  is_irreducible = false;
}

-- `cfg_build` up to `split_and_wire`.
unfoldable pub build_blocks : DolImage → ℕ → ℕ → Option Cfg
build_blocks img start_vaddr end_vaddr =
    if leb end_vaddr start_vaddr || not (start_vaddr % 4 == 0) || not (end_vaddr % 4 == 0)
    then none
    else collect_leaders img start_vaddr end_vaddr >>= λ leaders.
        split_and_wire img (record zero_cfg { entry_block = cfg_invalid }) end_vaddr leaders
