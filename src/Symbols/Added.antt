-- ===== src/Symbols/Added.antt =====
-- What `st_add_import_symbols` adds.
use calynda_for_wii.Base.{
  ℕ, Bool, true, false, Option, none, some, List, [], ◌∷◌, ◌++◌, Bytes, append-nil, append_assoc,
  ◌≡◌, ◌⊎◌, inl, inr, refl, sym, ap, ◌∙◌, arith,
}
use calynda_for_wii.Symbols.Ast.{
  AstSourceSpan, AstImportDecl, AstImportKind, import_plain, import_alias, import_wildcard,
  import_selective,
}
use calynda_for_wii.Symbols.State.{
  Symbol, SymbolTable, ErrorText, duplicate_import_alias, ambiguous_import,
}
use calynda_for_wii.Symbols.Core.{
  st_qualified_name_to_string, st_qualified_name_tail, st_imports_append, st_set_error_at,
}
use calynda_for_wii.Symbols.Query.{symbol_table_find_import}
use calynda_for_wii.Symbols.Imports.{
  add_kind, ◌>>=◌, import_symbol, add_import, add_selected, add_import_decl, st_add_import_symbols,
}
use calynda_for_wii.Symbols.Names.{fresh, fresh-append, find_named-cases}

-- The symbols of a selective import.
abbrev pub selected_symbols : AstImportDecl → List Bytes → Option ℕ → List Symbol
selected_symbols imp [] root = []
selected_symbols imp (name ∷ names) root =
    import_symbol imp (some name)
      (st_qualified_name_to_string imp.module_name.segments ++ 46 ∷ name) root
    ∷ selected_symbols imp names root

abbrev pub kind_symbols : AstImportKind → AstImportDecl → Bytes → Option ℕ → List Symbol
kind_symbols import_plain imp module_name root =
    import_symbol imp (some (st_qualified_name_tail imp.module_name.segments)) module_name root ∷ []
kind_symbols import_alias imp module_name root =
    import_symbol imp (some imp.alias) module_name root ∷ []
kind_symbols import_wildcard imp module_name root =
    record (import_symbol imp none module_name root) { is_wildcard_import = true } ∷ []
kind_symbols import_selective imp module_name root = selected_symbols imp imp.selected_names root

-- The symbols of an import declaration.
abbrev pub decl_symbols : AstImportDecl → Option ℕ → List Symbol
decl_symbols imp root =
    kind_symbols imp.kind imp (st_qualified_name_to_string imp.module_name.segments) root

abbrev pub imports_of : List AstImportDecl → Option ℕ → List Symbol
imports_of [] root = []
imports_of (imp ∷ imports) root = decl_symbols imp root ++ imports_of imports root

abbrev pub with_imports : SymbolTable → List Symbol → SymbolTable
with_imports table l = record table { imports = table.imports ++ l }

-- All of the symbols are added, or one of them repeats a name and there is an error.
abbrev pub Adds : Bool × SymbolTable → SymbolTable → List Symbol → Type 0
Adds r table l =
    ((fresh table.imports l ≡ true) × (r ≡ (true, with_imports table l)))
    ⊎ ((fresh table.imports l ≡ false) × (r.0 ≡ false) × (r.1.has_error ≡ true))

Adds-nothing : (table : SymbolTable) → Adds (true, table) table []
Adds-nothing table =
    inl (refl, ap (λ l. (true, record table { imports = l })) (sym (append-nil table.imports)))

pub set_error-has_error :
    (primary related : AstSourceSpan) (text : ErrorText) (table : SymbolTable)
    → (st_set_error_at primary related text table).has_error ≡ true
unfolding st_set_error_at
set_error-has_error primary related text table = ground arith

pub stops :
    (r : Bool × SymbolTable) (f : SymbolTable → Bool × SymbolTable)
    → r.0 ≡ false
    → r.1.has_error ≡ true
    → ((r >>= f).0 ≡ false) × ((r >>= f).1.has_error ≡ true)
stops (true, table) f e h = cc
stops (false, table) f e h = (refl, h)

Adds-then :
    (r : Bool × SymbolTable) (f : SymbolTable → Bool × SymbolTable) (table : SymbolTable)
    (l m : List Symbol)
    → Adds r table l
    → Adds (f (with_imports table l)) (with_imports table l) m
    → Adds (r >>= f) table (l ++ m)
Adds-then r f table l m first second = elim first [
  | inr (used, e, h) ↦
      let (stop, h') = stops r f e h in
      inr (fresh-append table.imports l m ∙ rw used refl, stop, h')
  | inl (new, e) ↦ elim second [
    | inl (new', e') ↦ inl (
      fresh-append table.imports l m ∙ rw (new, new') refl,
      ap (λ x. x >>= f) e
          ∙ e'
          ∙ ap (λ k. (true, record table { imports = k })) (append_assoc table.imports l m),
    )
    | inr (used, stop, h) ↦ inr (
      fresh-append table.imports l m ∙ rw (new, used) refl,
      ap (λ x. (x >>= f).0) e ∙ stop,
      ap (λ x. (x >>= f).1.has_error) e ∙ h,
    )
  ]
]

add_import-Adds :
    (imp : AstImportDecl) (name qualified_name : Bytes) (text : ErrorText) (table : SymbolTable)
    → Adds
        (add_import imp name qualified_name text table)
        table
        (import_symbol imp (some name) qualified_name table.root_scope ∷ [])
unfolding add_import symbol_table_find_import st_imports_append
add_import-Adds imp name qualified_name text table = elim (find_named-cases table.imports name) [
  | inl (nowhere, e) ↦ inl (rw nowhere refl, rw (e, add_import) refl)
  | inr (there, s, e) ↦ inr (
    rw there refl,
    rw (e, add_import) refl,
    rw (e, add_import) (set_error-has_error _ _ text table),
  )
]

add_selected-Adds :
    (imp : AstImportDecl) (names : List Bytes) (table : SymbolTable)
    → Adds
        (add_selected imp (st_qualified_name_to_string imp.module_name.segments) names table)
        table
        (selected_symbols imp names table.root_scope)
unfolding add_selected
add_selected-Adds imp [] table = Adds-nothing table
add_selected-Adds imp (name ∷ names) table =
    let module_name = st_qualified_name_to_string imp.module_name.segments in
    let qualified_name = module_name ++ 46 ∷ name in
    let first = import_symbol imp (some name) qualified_name table.root_scope ∷ [] in
    Adds-then (add_import imp name qualified_name (ambiguous_import name) table)
      (add_selected imp module_name names) table first (selected_symbols imp names table.root_scope)
      (add_import-Adds imp name qualified_name (ambiguous_import name) table)
      (add_selected-Adds imp names (with_imports table first))

add_kind-Adds :
    (kind : AstImportKind) (imp : AstImportDecl) (table : SymbolTable)
    → let module_name = st_qualified_name_to_string imp.module_name.segments in
      Adds
        (add_kind kind imp module_name table)
        table
        (kind_symbols kind imp module_name table.root_scope)
unfolding st_imports_append
add_kind-Adds import_plain imp table =
    let tail = st_qualified_name_tail imp.module_name.segments in
    add_import-Adds imp tail _ (duplicate_import_alias tail) table
add_kind-Adds import_alias imp table =
    add_import-Adds imp imp.alias _ (duplicate_import_alias imp.alias) table
add_kind-Adds import_wildcard imp table = inl (refl, refl)
add_kind-Adds import_selective imp table = add_selected-Adds imp imp.selected_names table

add_import_decl-Adds :
    (imp : AstImportDecl) (table : SymbolTable)
    → Adds (add_import_decl imp table) table (decl_symbols imp table.root_scope)
unfolding add_import_decl
add_import_decl-Adds imp table = add_kind-Adds imp.kind imp table

pub st_add_import_symbols-Adds :
    (imports : List AstImportDecl) (table : SymbolTable)
    → Adds (st_add_import_symbols imports table) table (imports_of imports table.root_scope)
unfolding st_add_import_symbols
st_add_import_symbols-Adds [] table = Adds-nothing table
st_add_import_symbols-Adds (imp ∷ imports) table =
    Adds-then (add_import_decl imp table) (st_add_import_symbols imports) table
      (decl_symbols imp table.root_scope) (imports_of imports table.root_scope)
      (add_import_decl-Adds imp table)
      (st_add_import_symbols-Adds imports (with_imports table (decl_symbols imp table.root_scope)))
