-- ===== src/Symbols/Imports.antt =====
-- compiler/src/sema/symbol_table_imports.c. A function returns its flag with the table.
use calynda_for_wii.Base.{
  if◌then◌else◌, ℕ, Bool, true, false, Option, none, some, List, [], ◌∷◌, ◌++◌, Bytes,
}
use calynda_for_wii.Symbols.Ast.{
  AstImportDecl, AstImportKind, import_plain, import_alias, import_wildcard, import_selective,
  AstProgram,
}
use calynda_for_wii.Symbols.State.{
  Symbol, SymbolTable, ErrorText, duplicate_import_alias, ambiguous_import, kind_package,
  kind_import,
}
use calynda_for_wii.Symbols.Core.{
  st_qualified_name_to_string, st_qualified_name_tail, st_symbol_new, st_imports_append,
  st_set_error_at,
}
use calynda_for_wii.Symbols.Query.{symbol_table_find_import}

-- The next step runs where the one before returned true.
infixl 5 ◌>>=◌
abbrev pub ◌>>=◌ : Bool × SymbolTable → (SymbolTable → Bool × SymbolTable) → Bool × SymbolTable
(true, table) >>= f = f table
(false, table) >>= f = (false, table)

unfoldable pub st_add_package_symbol : AstProgram → SymbolTable → Bool × SymbolTable
st_add_package_symbol program table =
    if program.has_package
    then (
      true,
      record table {
        package_symbol = some (
            st_symbol_new kind_package (some (st_qualified_name_tail program.package_name.segments))
              (some (st_qualified_name_to_string program.package_name.segments)) none false false
              false false false program.package_name.tail_span program.package_name_node none);
      },
    )
    else (true, table)

-- A symbol of an import declaration.
abbrev pub import_symbol : AstImportDecl → Option Bytes → Bytes → Option ℕ → Symbol
import_symbol imp name qualified_name root =
    st_symbol_new kind_import name (some qualified_name) none false false false false false
      imp.module_name.tail_span imp.node root

-- Adds a symbol for `name`, unless an import has that name.
unfoldable pub add_import :
    AstImportDecl → Bytes → Bytes → ErrorText → SymbolTable → Bool × SymbolTable
add_import imp name qualified_name text table = elim (symbol_table_find_import table name) [
  | some existing ↦
      (false, st_set_error_at imp.module_name.tail_span existing.declaration_span text table)
  | none ↦ (
    true,
    st_imports_append (import_symbol imp (some name) qualified_name table.root_scope) table,
  )
]

-- The loop over the selected names.
unfoldable pub add_selected : AstImportDecl → Bytes → List Bytes → SymbolTable → Bool × SymbolTable
add_selected imp module_name [] table = (true, table)
add_selected imp module_name (name ∷ names) table =
    add_import imp name (module_name ++ 46 ∷ name) (ambiguous_import name) table
    >>= add_selected imp module_name names

-- The switch of the loop.
abbrev pub add_kind : AstImportKind → AstImportDecl → Bytes → SymbolTable → Bool × SymbolTable
add_kind import_plain imp qualified_name table =
    let name = st_qualified_name_tail imp.module_name.segments in
    add_import imp name qualified_name (duplicate_import_alias name) table
add_kind import_alias imp qualified_name table =
    add_import imp imp.alias qualified_name (duplicate_import_alias imp.alias) table
add_kind import_wildcard imp qualified_name table = (
  true,
  st_imports_append
      (record (import_symbol imp none qualified_name table.root_scope) {
        is_wildcard_import = true;
      })
      table,
)
add_kind import_selective imp qualified_name table =
    add_selected imp qualified_name imp.selected_names table

unfoldable pub add_import_decl : AstImportDecl → SymbolTable → Bool × SymbolTable
add_import_decl imp table =
    add_kind imp.kind imp (st_qualified_name_to_string imp.module_name.segments) table

-- The loop of `st_add_import_symbols`.
unfoldable pub st_add_import_symbols : List AstImportDecl → SymbolTable → Bool × SymbolTable
st_add_import_symbols [] table = (true, table)
st_add_import_symbols (imp ∷ imports) table =
    add_import_decl imp table >>= st_add_import_symbols imports
