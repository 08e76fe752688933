-- ===== src/Cfg/Tests.antt =====
-- The graph of a function of four instructions, and the theorems at it.
use calynda_for_wii.Cfg.Ordered.{build_blocks-ordered, IsOrder}
use calynda_for_wii.Cfg.Dominance.{fill_pos, turn_round, dfs_post, build_rpo, Rpo}
use calynda_for_wii.Cfg.Numbers.{block_at}
use calynda_for_wii.Base.{
  ℕ, Option, none, some, [], ◌∷◌, ◌≡◌, ◌⊎◌, ◌↔◌, inl, inr, refl, arith, Bytes,
}
use calynda_for_wii.Base.Int.{negsuc}
use calynda_for_wii.Dol.{
  DolImage, dol_vaddr_to_ptr, section_among, read_u32_be, zero_image, dol_section_text,
}
use calynda_for_wii.Ppc.Decode.{
  decode_primary, decode_bform_branch, decode_opcode19, decode_ori, decode_dform_arith, dform_op,
  ppc_decode,
}
use calynda_for_wii.Cfg.Graph.{
  Cfg, cfg_add_block, cfg_add_edge, cfg_block_of_vaddr, CfgEdge, CfgEdgeKind, cfg_read_word,
  cfg_invalid, edge_fallthrough, edge_cond_taken, edge_cond_not_taken, edge_return,
}
use calynda_for_wii.Cfg.Leaders.{
  collect_leaders, scan, sort, sort_from, shift_in, dedupe, dedupe_from,
}
use calynda_for_wii.Cfg.Build.{split, append_block, wire, split_and_wire, build_blocks, zero_cfg}
use calynda_for_wii.Cfg.Scan.{Unreadable}
use calynda_for_wii.Cfg.Division.{new_block, IsRange}
use calynda_for_wii.Cfg.Transfers.{ending, straight}
use calynda_for_wii.Cfg.Inside.{build_blocks-straight}
use calynda_for_wii.Cfg.Whole.{
  IsGraph, build_blocks-cases, build_blocks-IsGraph, build_blocks_refuses,
}

-- nop; beq to the last instruction; addi r3, r3, 1; blr
abbrev code : Bytes
code = 0x60 ∷ 0 ∷ 0 ∷ 0 ∷ 0x41 ∷ 0x82 ∷ 0 ∷ 8 ∷ 0x38 ∷ 0x63 ∷ 0 ∷ 1 ∷ 0x4E ∷ 0x80 ∷ 0 ∷ 0x20 ∷ []

abbrev image : DolImage
image = record zero_image {
  bytes = code;
  size = 16;
  sections =
      record {
        kind = dol_section_text;
        index = 0;
        file_offset = 0;
        virtual_addr = 0x80004000;
        size = 16;
      }
      ∷ [];
}

abbrev cfg_of : Option Cfg → Cfg
cfg_of none = zero_cfg
cfg_of (some cfg) = cfg

abbrev graph : Cfg
graph = cfg_of (build_blocks image 0x80004000 0x80004010)

built : build_blocks image 0x80004000 0x80004010 ≡ some graph
unfolding build_blocks split_and_wire collect_leaders scan sort sort_from shift_in dedupe
    dedupe_from split append_block cfg_add_block wire cfg_add_edge cfg_block_of_vaddr cfg_read_word
    dol_vaddr_to_ptr section_among read_u32_be ppc_decode decode_primary decode_bform_branch
    decode_opcode19 decode_ori decode_dform_arith dform_op
built = refl

abbrev edge : ℕ → ℕ → CfgEdgeKind → CfgEdge
edge from to kind = record { from = from; to = to; kind = kind; case_value = negsuc 0 }

graph_edges :
    graph.edges
    ≡ edge 0 2 edge_cond_taken
      ∷ edge 0 1 edge_cond_not_taken
      ∷ edge 1 2 edge_fallthrough
      ∷ edge 2 cfg_invalid edge_return
      ∷ []
unfolding build_blocks split_and_wire collect_leaders scan sort sort_from shift_in dedupe
    dedupe_from split append_block cfg_add_block wire cfg_add_edge cfg_block_of_vaddr cfg_read_word
    dol_vaddr_to_ptr section_among read_u32_be ppc_decode decode_primary decode_bform_branch
    decode_opcode19 decode_ori decode_dform_arith dform_op
graph_edges = refl

words-IsRange : IsRange 0x80004000 0x80004010
words-IsRange = record {
  nonempty = omega arith;
  small = omega arith;
  start_whole = refl;
  end_whole = refl;
}

all_read : ¬ Unreadable image 0x80004000 0x80004010
all_read = elim (build_blocks-cases image 0x80004000 0x80004010 (omega arith)) [
  | inl (_, c) ↦ absurd (cc (built, c))
  | inr (_, all, _, _, _) ↦ all
]

build_blocks-IsGraph_example :
    (cfg : Cfg) × (build_blocks image 0x80004000 0x80004010 ≡ some cfg)
    × IsGraph image 0x80004000 0x80004010 cfg
build_blocks-IsGraph_example =
    build_blocks-IsGraph image 0x80004000 0x80004010 words-IsRange all_read

-- The image ends before this range does.
build_blocks_refuses_example :
    (build_blocks image 0x80004000 0x80004020 ≡ none)
    ↔ ((¬ IsRange 0x80004000 0x80004020) ⊎ Unreadable image 0x80004000 0x80004020)
build_blocks_refuses_example = build_blocks_refuses image 0x80004000 0x80004020 (omega arith)

first_block : block_at 0 graph.blocks ≡ some (new_block 0x80004000 0x80004008)
unfolding build_blocks split_and_wire collect_leaders scan sort sort_from shift_in dedupe
    dedupe_from split append_block cfg_add_block wire cfg_add_edge cfg_block_of_vaddr cfg_read_word
    dol_vaddr_to_ptr section_among read_u32_be ppc_decode decode_primary decode_bform_branch
    decode_opcode19 decode_ori decode_dform_arith dform_op
first_block = refl

first_word : cfg_read_word image 0x80004000 ≡ some 0x60000000
unfolding cfg_read_word dol_vaddr_to_ptr section_among read_u32_be
first_word = refl

build_blocks-straight_example : ending (ppc_decode 0x60000000 0x80004000).op ≡ straight
build_blocks-straight_example =
    build_blocks-straight image 0x80004000 0x80004010 0 0x80004000 0x60000000 graph
      (new_block 0x80004000 0x80004008) (omega arith) built first_block (omega arith) (omega arith)
      refl first_word

-- The entry first, then the block that is not skipped, then the last one.
graph_order : build_rpo graph ≡ some (record { order = 0 ∷ 1 ∷ 2 ∷ []; pos = 0 ∷ 1 ∷ 2 ∷ [] })
unfolding build_blocks split_and_wire collect_leaders scan sort sort_from shift_in dedupe
    dedupe_from split append_block cfg_add_block wire cfg_add_edge cfg_block_of_vaddr cfg_read_word
    dol_vaddr_to_ptr section_among read_u32_be ppc_decode decode_primary decode_bform_branch
    decode_opcode19 decode_ori decode_dform_arith dform_op build_rpo dfs_post turn_round fill_pos
graph_order = refl

build_blocks-ordered_example : (rpo : Rpo) × (build_rpo graph ≡ some rpo) × IsOrder graph rpo
build_blocks-ordered_example =
    build_blocks-ordered image 0x80004000 0x80004010 graph (omega arith) built
