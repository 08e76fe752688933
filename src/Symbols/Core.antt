-- ===== src/Symbols/Core.antt =====
-- compiler/src/sema/symbol_table_core.c and symbol_table_registry.c: scopes, symbols, the lists of the
-- table, and its error.
use calynda_for_wii.Base.{
  ◌||◌, ◌==◌, ℕ, Bool, true, false, ◌&&◌, Option, none, some, List, [], ◌∷◌, ◌++◌, if◌then◌else◌,
  ltb, length, get_or, set, Bytes,
}
use calynda_for_wii.Symbols.Ast.{
  AstSourceSpan, AstModifier, modifier_final, modifier_public, modifier_private, modifier_export,
  modifier_static, modifier_internal, AstBindingDecl,
}
use calynda_for_wii.Symbols.State.{
  Symbol, SymbolKind, Scope, ScopeKind, scope_program, SymbolTable, ErrorText,
}

-- Memory that holds no scope.
abbrev pub zero_scope : Scope
zero_scope = record { kind = scope_program; owner = 0; parent = none; children = []; symbols = [] }

abbrev pub scope_at : SymbolTable → ℕ → Scope
scope_at table scope = get_or table.scopes scope zero_scope

abbrev pub set_scope : ℕ → Scope → SymbolTable → SymbolTable
set_scope scope new table = record table { scopes = set table.scopes scope new }

unfoldable pub st_append_scope_child : ℕ → ℕ → SymbolTable → SymbolTable
st_append_scope_child parent child table =
    let p = scope_at table parent in
    set_scope parent (record p { children = p.children ++ child ∷ [] }) table

-- `if (parent) st_append_scope_child(table, parent, scope)`
abbrev pub append_to_parent : Option ℕ → ℕ → SymbolTable → SymbolTable
append_to_parent none scope table = table
append_to_parent (some parent) scope table = st_append_scope_child parent scope table

-- The new scope, and the table with it.
unfoldable pub st_scope_new : ScopeKind → ℕ → Option ℕ → SymbolTable → SymbolTable × ℕ
st_scope_new kind owner parent table =
    let scope = length table.scopes in
    (
      append_to_parent parent scope (record table {
        scopes =
            table.scopes
            ++ record { kind = kind; owner = owner; parent = parent; children = []; symbols = [] }
              ∷ [];
      }),
      scope,
    )

unfoldable pub st_qualified_name_to_string : List Bytes → Bytes
st_qualified_name_to_string [] = []
st_qualified_name_to_string (segment ∷ []) = segment
st_qualified_name_to_string (segment ∷ next ∷ segments) =
    segment ++ 46 ∷ st_qualified_name_to_string (next ∷ segments)

unfoldable pub st_qualified_name_tail : List Bytes → Bytes
st_qualified_name_tail [] = []
st_qualified_name_tail (segment ∷ []) = segment
st_qualified_name_tail (segment ∷ next ∷ segments) = st_qualified_name_tail (next ∷ segments)

abbrev pub st_symbol_new :
    SymbolKind
    → Option Bytes
    → Option Bytes
    → Option ℕ
    → Bool
    → Bool
    → Bool
    → Bool
    → Bool
    → AstSourceSpan
    → ℕ
    → Option ℕ
    → Symbol
st_symbol_new kind name qualified_name declared_type is_inferred_type is_final is_exported is_static
      is_internal declaration_span declaration scope =
    record {
      kind = kind;
      name = name;
      qualified_name = qualified_name;
      declared_type = declared_type;
      is_inferred_type = is_inferred_type;
      is_final = is_final;
      is_exported = is_exported;
      is_static = is_static;
      is_internal = is_internal;
      generic_param_count = 0;
      declaration_span = declaration_span;
      declaration = declaration;
      scope = scope;
      variant_index = 0;
      variant_has_payload = false;
      variant_payload_type = none;
      is_wildcard_import = false;
    }

unfoldable pub st_scope_append_symbol : ℕ → Symbol → SymbolTable → SymbolTable
st_scope_append_symbol scope symbol table =
    let s = scope_at table scope in
    set_scope scope (record s { symbols = s.symbols ++ symbol ∷ [] }) table

unfoldable pub st_imports_append : Symbol → SymbolTable → SymbolTable
st_imports_append symbol table = record table { imports = table.imports ++ symbol ∷ [] }

unfoldable pub st_resolutions_append : ℕ → AstSourceSpan → ℕ → Symbol → SymbolTable → SymbolTable
st_resolutions_append identifier source_span scope symbol table = record table {
  resolutions =
      table.resolutions
      ++ record {
        identifier = identifier;
        scope = scope;
        source_span = source_span;
        symbol = symbol;
      }
        ∷ [];
}

unfoldable pub st_unresolved_append : ℕ → AstSourceSpan → ℕ → SymbolTable → SymbolTable
st_unresolved_append identifier source_span scope table = record table {
  unresolved_identifiers =
      table.unresolved_identifiers
      ++ record { identifier = identifier; scope = scope; source_span = source_span } ∷ [];
}

abbrev pub st_source_span_is_valid : AstSourceSpan → Bool
st_source_span_is_valid span = ltb 0 span.start_line && ltb 0 span.start_column

-- The first error stays.
unfoldable pub st_set_error_at :
    AstSourceSpan → AstSourceSpan → ErrorText → SymbolTable → SymbolTable
st_set_error_at primary related text table = if table.has_error then table else record table {
  has_error = true;
  error = record table.error {
    primary_span = primary;
    related_span = if st_source_span_is_valid related then related else table.error.related_span;
    has_related_span = st_source_span_is_valid related || table.error.has_related_span;
    message = text;
  };
}

abbrev pub modifier_code : AstModifier → ℕ
modifier_code m = elim m [
  | modifier_public ↦ 0
  | modifier_private ↦ 1
  | modifier_final ↦ 2
  | modifier_export ↦ 3
  | modifier_static ↦ 4
  | modifier_internal ↦ 5
]

-- `ast_decl_has_modifier`, and the loop of `st_top_level_binding_is_final`.
abbrev pub ast_decl_has_modifier : List AstModifier → AstModifier → Bool
ast_decl_has_modifier [] modifier = false
ast_decl_has_modifier (m ∷ modifiers) modifier =
    modifier_code m == modifier_code modifier || ast_decl_has_modifier modifiers modifier

abbrev pub st_top_level_binding_is_final : AstBindingDecl → Bool
st_top_level_binding_is_final decl = ast_decl_has_modifier decl.modifiers modifier_final
