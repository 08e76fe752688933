-- ===== src/Symbols/Build.antt =====
-- compiler/src/sema/symbol_table_analyze.c: the bodies of the top-level declarations; and
-- `symbol_table_build` of symbol_table.c.
use calynda_for_wii.Symbols.Walk.{st_analyze_expression, st_analyze_body, in_scope_of}
use calynda_for_wii.Symbols.Predeclare.{build_names}
use calynda_for_wii.Symbols.Core.{st_symbol_new, st_scope_append_symbol, st_scope_new}
use calynda_for_wii.Symbols.State.{
  kind_type_parameter, kind_variant, scope_start, scope_boot, scope_union, Symbol, SymbolTable,
}
use calynda_for_wii.Symbols.Ast.{
  top_level_extern, top_level_union, top_level_binding, top_level_boot, top_level_start,
  AstUnionVariant, AstStartDecl, AstTopLevelDecl, AstProgram, AstUnionDecl, AstBootDecl,
}
use calynda_for_wii.Base.{ℕ, suc, Bool, true, false, not, Option, none, some, List, [], ◌∷◌, Bytes}
use calynda_for_wii.Symbols.Imports.{◌>>=◌}

abbrev pub type_parameter_symbol : AstUnionDecl → Bytes → ℕ → Symbol
type_parameter_symbol decl name scope =
    st_symbol_new kind_type_parameter (some name) none none false false false false false
      decl.name_span decl.node (some scope)

abbrev pub is_given : Option ℕ → Bool
is_given none = false
is_given (some type) = true

abbrev pub variant_symbol : AstUnionDecl → AstUnionVariant → ℕ → ℕ → Symbol
variant_symbol decl variant i scope =
    record (st_symbol_new kind_variant (some variant.name) none variant.payload_type false false
      false false false decl.name_span decl.node (some scope)) {
        variant_index = i;
        variant_has_payload = is_given variant.payload_type;
        variant_payload_type = variant.payload_type;
      }

-- The two loops of `st_analyze_union_decl`, the second from variant number `i` on.
unfoldable pub append_type_parameters : AstUnionDecl → List Bytes → ℕ → SymbolTable → SymbolTable
append_type_parameters decl [] scope table = table
append_type_parameters decl (name ∷ names) scope table =
    append_type_parameters decl names scope
      (st_scope_append_symbol scope (type_parameter_symbol decl name scope) table)

unfoldable pub append_variants :
    AstUnionDecl → List AstUnionVariant → ℕ → ℕ → SymbolTable → SymbolTable
append_variants decl [] i scope table = table
append_variants decl (variant ∷ variants) i scope table =
    append_variants decl variants (suc i) scope
      (st_scope_append_symbol scope (variant_symbol decl variant i scope) table)

unfoldable pub st_analyze_union_decl : AstUnionDecl → ℕ → SymbolTable → Bool × SymbolTable
st_analyze_union_decl decl parent table =
    let (opened, scope) = st_scope_new scope_union decl.node (some parent) table in
    (
      true,
      append_variants decl decl.variants 0 scope
          (append_type_parameters decl decl.generic_params scope opened),
    )

unfoldable pub st_analyze_start_decl : AstStartDecl → ℕ → SymbolTable → Bool × SymbolTable
st_analyze_start_decl decl parent table =
    in_scope_of scope_start decl.node decl.parameters (st_analyze_body decl.body) parent table

unfoldable pub st_analyze_boot_decl : AstBootDecl → ℕ → SymbolTable → Bool × SymbolTable
st_analyze_boot_decl decl parent table =
    in_scope_of scope_boot decl.node decl.parameters (st_analyze_body decl.body) parent table

unfoldable pub st_analyze_top_level_decl : AstTopLevelDecl → ℕ → SymbolTable → Bool × SymbolTable
st_analyze_top_level_decl (top_level_start decl) scope table =
    st_analyze_start_decl decl scope table
st_analyze_top_level_decl (top_level_boot decl) scope table = st_analyze_boot_decl decl scope table
st_analyze_top_level_decl (top_level_binding decl) scope table =
    st_analyze_expression decl.initializer scope table
st_analyze_top_level_decl (top_level_union decl) scope table =
    st_analyze_union_decl decl scope table
st_analyze_top_level_decl (top_level_extern decl) scope table = (true, table)

-- The loop over the bodies.
unfoldable pub analyze_decls : List AstTopLevelDecl → ℕ → SymbolTable → Bool × SymbolTable
analyze_decls [] scope table = (true, table)
analyze_decls (decl ∷ decls) scope table =
    st_analyze_top_level_decl decl scope table >>= analyze_decls decls scope

-- `return !table->has_error`
abbrev pub without_error : SymbolTable → Bool × SymbolTable
without_error table = (not table.has_error, table)

-- The root scope is the first one.
unfoldable pub symbol_table_build : AstProgram → Bool × SymbolTable
symbol_table_build program =
    build_names program >>= analyze_decls program.top_level_decls 0 >>= without_error
