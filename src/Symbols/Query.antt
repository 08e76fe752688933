-- ===== src/Symbols/Query.antt =====
-- compiler/src/sema/symbol_table_query.c, and `st_lookup_in_scopes` of symbol_table_registry.c.
use calynda_for_wii.Base.{
  ℕ, zero, suc, Bool, false, Option, none, some, List, [], ◌∷◌, if◌then◌else◌, length, ◌==◌, Bytes,
  bytes_eq,
}
use calynda_for_wii.Symbols.State.{Symbol, SymbolTable, SymbolResolution}
use calynda_for_wii.Symbols.Core.{scope_at}

-- `symbol->name && strcmp(symbol->name, name) == 0`
abbrev pub is_named : Option Bytes → Bytes → Bool
is_named none name = false
is_named (some own) name = bytes_eq own name

-- The loops of `scope_lookup_local` and `symbol_table_find_import`.
abbrev pub find_named : List Symbol → Bytes → Option Symbol
find_named [] name = none
find_named (symbol ∷ symbols) name =
    if is_named symbol.name name then some symbol else find_named symbols name

unfoldable pub symbol_table_find_import : SymbolTable → Bytes → Option Symbol
symbol_table_find_import table name = find_named table.imports name

-- A scope that is not NULL.
unfoldable pub scope_lookup_local : SymbolTable → ℕ → Bytes → Option Symbol
scope_lookup_local table scope name = find_named (scope_at table scope).symbols name

abbrev pub or_else : Option Symbol → Option Symbol → Option Symbol
or_else none other = other
or_else (some symbol) other = some symbol

-- The loop from a scope to its parents; the fuel is the number of scopes.
unfoldable pub st_lookup_in_scopes : ℕ → SymbolTable → Option ℕ → Bytes → Option Symbol
st_lookup_in_scopes fuel table none name = none
st_lookup_in_scopes zero table (some scope) name = none
st_lookup_in_scopes (suc fuel) table (some scope) name =
    or_else (scope_lookup_local table scope name)
      (st_lookup_in_scopes fuel table (scope_at table scope).parent name)

unfoldable pub symbol_table_lookup : SymbolTable → Option ℕ → Bytes → Option Symbol
symbol_table_lookup table scope name =
    or_else (st_lookup_in_scopes (length table.scopes) table scope name)
      (symbol_table_find_import table name)

abbrev pub find_resolution : List SymbolResolution → ℕ → Option SymbolResolution
find_resolution [] identifier = none
find_resolution (r ∷ resolutions) identifier =
    if r.identifier == identifier then some r else find_resolution resolutions identifier

unfoldable pub symbol_table_find_resolution : SymbolTable → ℕ → Option SymbolResolution
symbol_table_find_resolution table identifier = find_resolution table.resolutions identifier

abbrev pub symbol_of : Option SymbolResolution → Option Symbol
symbol_of none = none
symbol_of (some r) = some r.symbol

unfoldable pub symbol_table_resolve_identifier : SymbolTable → ℕ → Option Symbol
symbol_table_resolve_identifier table identifier =
    symbol_of (find_resolution table.resolutions identifier)

abbrev pub nth_symbol : List Symbol → ℕ → Option Symbol
nth_symbol [] index = none
nth_symbol (symbol ∷ symbols) zero = some symbol
nth_symbol (symbol ∷ symbols) (suc index) = nth_symbol symbols index

unfoldable pub symbol_table_get_import : SymbolTable → ℕ → Option Symbol
symbol_table_get_import table index = nth_symbol table.imports index

abbrev pub symbol_table_get_package : SymbolTable → Option Symbol
symbol_table_get_package table = table.package_symbol

abbrev pub symbol_table_root_scope : SymbolTable → Option ℕ
symbol_table_root_scope table = table.root_scope
