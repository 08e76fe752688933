-- ===== src/Symbols/Predeclare.antt =====
-- compiler/src/sema/symbol_table_predecl.c, and `symbol_table_build` up to the analysis of bodies.
use calynda_for_wii.Base.{ℕ, Bool, true, false, Option, none, some, List, [], ◌∷◌, length, Bytes}
use calynda_for_wii.Symbols.Ast.{
  AstTopLevelDecl, AstSourceSpan, top_level_start, top_level_boot, top_level_binding,
  top_level_union, top_level_extern, AstBindingDecl, AstUnionDecl, AstExternDecl, modifier_export,
  modifier_static, modifier_internal, AstProgram,
}
use calynda_for_wii.Symbols.State.{
  Symbol, SymbolTable, zero_table, duplicate_symbol, scope_program, kind_top_level_binding,
  kind_union, kind_extern,
}
use calynda_for_wii.Symbols.Core.{
  st_symbol_new, st_scope_new, st_scope_append_symbol, st_set_error_at, ast_decl_has_modifier,
  st_top_level_binding_is_final, scope_at,
}
use calynda_for_wii.Symbols.Query.{scope_lookup_local, symbol_table_find_import, or_else}
use calynda_for_wii.Symbols.Imports.{◌>>=◌, st_add_package_symbol, st_add_import_symbols}

abbrev pub binding_symbol : AstBindingDecl → ℕ → Symbol
binding_symbol decl root =
    st_symbol_new kind_top_level_binding (some decl.name) none (some decl.declared_type)
      decl.is_inferred_type (st_top_level_binding_is_final decl)
      (ast_decl_has_modifier decl.modifiers modifier_export)
      (ast_decl_has_modifier decl.modifiers modifier_static)
      (ast_decl_has_modifier decl.modifiers modifier_internal) decl.name_span decl.node (some root)

abbrev pub union_symbol : AstUnionDecl → ℕ → Symbol
union_symbol decl root =
    record (st_symbol_new kind_union (some decl.name) none none false false
      (ast_decl_has_modifier decl.modifiers modifier_export)
      (ast_decl_has_modifier decl.modifiers modifier_static) false decl.name_span decl.node
      (some root)) { generic_param_count = length decl.generic_params }

abbrev pub extern_symbol : AstExternDecl → ℕ → Symbol
extern_symbol decl root =
    st_symbol_new kind_extern (some decl.name) none (some decl.return_type) false false false false
      false decl.name_span decl.node (some root)

-- Adds a symbol to the root scope, unless another one conflicts with it.
abbrev pub declare :
    Option Symbol → Bytes → AstSourceSpan → ℕ → Symbol → SymbolTable → Bool × SymbolTable
declare none name span root symbol table = (true, st_scope_append_symbol root symbol table)
declare (some conflicting) name span root symbol table = (
  false,
  st_set_error_at span conflicting.declaration_span
      (duplicate_symbol name (scope_at table root).kind) table,
)

-- One round of the loop.
unfoldable pub predeclare : ℕ → AstTopLevelDecl → SymbolTable → Bool × SymbolTable
predeclare root (top_level_start decl) table = (true, table)
predeclare root (top_level_boot decl) table = (true, table)
predeclare root (top_level_binding decl) table =
    declare
      (or_else (scope_lookup_local table root decl.name) (symbol_table_find_import table decl.name))
      decl.name decl.name_span root (binding_symbol decl root) table
predeclare root (top_level_union decl) table =
    declare
      (or_else (scope_lookup_local table root decl.name) (symbol_table_find_import table decl.name))
      decl.name decl.name_span root (union_symbol decl root) table
predeclare root (top_level_extern decl) table =
    declare (scope_lookup_local table root decl.name) decl.name decl.name_span root
      (extern_symbol decl root) table

unfoldable pub st_predeclare_top_level_bindings :
    ℕ → List AstTopLevelDecl → SymbolTable → Bool × SymbolTable
st_predeclare_top_level_bindings root [] table = (true, table)
st_predeclare_top_level_bindings root (decl ∷ decls) table =
    predeclare root decl table >>= st_predeclare_top_level_bindings root decls

-- `symbol_table_build` up to the loop over the bodies.
unfoldable pub build_names : AstProgram → Bool × SymbolTable
build_names program =
    let (table, root) =
      st_scope_new scope_program program.node none (record zero_table { program = program.node }) in
    st_add_package_symbol program (record table { root_scope = some root })
    >>= st_add_import_symbols program.imports
    >>= st_predeclare_top_level_bindings root program.top_level_decls
