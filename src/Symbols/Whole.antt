-- ===== src/Symbols/Whole.antt =====
-- When the declarations of a program are accepted, and what the table holds then.
use calynda_for_wii.Base.{
  Bytes, Bool, true, false, ◌&&◌, Option, none, some, List, [], ◌∷◌, ◌≡◌, ◌⊎◌, inl, inr, refl, sym,
  ◌∙◌, Bool-cases,
}
use calynda_for_wii.Symbols.Ast.{AstProgram}
use calynda_for_wii.Symbols.State.{Symbol, SymbolTable, Scope, scope_program, zero_table}
use calynda_for_wii.Symbols.Core.{scope_at, st_scope_new}
use calynda_for_wii.Symbols.Imports.{◌>>=◌, st_add_package_symbol, st_add_import_symbols}
use calynda_for_wii.Symbols.Predeclare.{st_predeclare_top_level_bindings, build_names}
use calynda_for_wii.Symbols.Names.{repeats, fresh, fresh-distinct, apart, distinct_names}
use calynda_for_wii.Symbols.Added.{imports_of, with_imports, st_add_import_symbols-Adds, stops}
use calynda_for_wii.Symbols.Declared.{top_symbols, allowed, rooted, st_predeclare-Declares}

-- No two imports have the same name, no two declarations do, and no declaration but an external one
-- has the name of an import.
abbrev pub no_clash : AstProgram → Bool
no_clash program =
    let imports = imports_of program.imports (some 0) in
    let symbols = top_symbols 0 program.top_level_decls in
    distinct_names imports && (distinct_names symbols && allowed imports symbols)

abbrev pub root_scope_of : AstProgram → Scope
root_scope_of program = record {
  kind = scope_program;
  owner = program.node;
  parent = none;
  children = [];
  symbols = [];
}

-- The table holds the imports and, in its only scope, the declarations, in their order; it holds no
-- identifier and no error.
pub record IsDeclared (program : AstProgram) (table : SymbolTable) : Type 0 where
  pub imports_are : table.imports ≡ imports_of program.imports (some 0)
  pub root_is : table.root_scope ≡ some 0
  pub symbols_are : (scope_at table 0).symbols ≡ top_symbols 0 program.top_level_decls
  pub scopes_are :
      table.scopes
      ≡ record (root_scope_of program) { symbols = top_symbols 0 program.top_level_decls } ∷ []
  pub resolutions_are : table.resolutions ≡ []
  pub unresolved_are : table.unresolved_identifiers ≡ []
  pub no_error : table.has_error ≡ false

repeats_nothing : (name : Option Bytes) → repeats name [] ≡ false
repeats_nothing none = refl
repeats_nothing (some name) = refl

apart-nothing : (l : List Symbol) → apart [] l ≡ true
apart-nothing [] = refl
apart-nothing (s ∷ l) = rw (apart-nothing l, repeats_nothing s.name) refl

fresh-nothing : (l : List Symbol) → fresh [] l ≡ distinct_names l
fresh-nothing l = fresh-distinct [] l ∙ rw apart-nothing refl

-- The table with the root scope and a symbol of the package.
abbrev started : AstProgram → Option Symbol → SymbolTable
started program pkg = record zero_table {
  program = program.node;
  package_symbol = pkg;
  scopes = root_scope_of program ∷ [];
  root_scope = some 0;
}

build_names_lem :
    (program : AstProgram)
    → (pkg : Option Symbol) × (build_names program ≡ (
        st_add_import_symbols program.imports (started program pkg)
        >>= st_predeclare_top_level_bindings 0 program.top_level_decls))
unfolding build_names st_scope_new st_add_package_symbol
build_names_lem program = elim (Bool-cases program.has_package) [
  | inl e ↦ ((st_add_package_symbol program zero_table).1.package_symbol, rw e refl)
  | inr e ↦ (none, rw e refl)
]

-- The declarations of a program are accepted exactly where no two imports have the same name, no two
-- top-level declarations do, and no binding and no union has the name of an import; then the table
-- holds a symbol for each import and, in its only scope, each such declaration, in their order, and no
-- identifier and no error, and otherwise it has an error.
pub build_names-cases :
    (program : AstProgram)
    → ((no_clash program ≡ true)
        × (table : SymbolTable) × (build_names program ≡ (true, table))
        × IsDeclared program table)
      ⊎ ((no_clash program ≡ false)
          × ((build_names program).0 ≡ false)
          × ((build_names program).1.has_error ≡ true))
build_names-cases program =
    let (pkg, built) = build_names_lem program in
    let base = started program pkg in
    let root = root_scope_of program in
    let imports = imports_of program.imports (some 0) in
    let symbols = top_symbols 0 program.top_level_decls in
    let declare_all = st_predeclare_top_level_bindings 0 program.top_level_decls in
    elim (st_add_import_symbols-Adds program.imports base) [
      | inr (used, e, h) ↦
          let (stop, h') = stops (st_add_import_symbols program.imports base) declare_all e h in
          inr (rw (sym (fresh-nothing imports) ∙ used) refl, rw built stop, rw built h')
      | inl (new, e) ↦
          elim (st_predeclare-Declares program.top_level_decls (with_imports base imports) root
            []) [
              | inr (used, stop, h) ↦ inr (
                rw (sym (fresh-nothing imports) ∙ new, sym (fresh-nothing symbols)) used,
                rw (built, e) stop,
                rw (built, e) h,
              )
              | inl (new', e') ↦ inl (
                rw (sym (fresh-nothing imports) ∙ new, sym (fresh-nothing symbols)) new',
                rooted (with_imports base imports) root symbols,
                rw (built, e) e',
                record {
                  imports_are = refl;
                  root_is = refl;
                  symbols_are = refl;
                  scopes_are = refl;
                  resolutions_are = refl;
                  unresolved_are = refl;
                  no_error = refl;
                },
              )
            ]
    ]
