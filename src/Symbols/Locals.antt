-- ===== src/Symbols/Locals.antt =====
-- compiler/src/sema/symbol_table_analyze_expr.c: the declaration of parameters and of local bindings.
use calynda_for_wii.Base.{ℕ, Bool, true, false, none, some, List, [], ◌∷◌}
use calynda_for_wii.Symbols.Ast.{AstParameter, AstLocalBindingStatement}
use calynda_for_wii.Symbols.State.{Symbol, SymbolTable, kind_parameter, kind_local}
use calynda_for_wii.Symbols.Core.{st_symbol_new}
use calynda_for_wii.Symbols.Query.{scope_lookup_local}
use calynda_for_wii.Symbols.Imports.{◌>>=◌}
use calynda_for_wii.Symbols.Predeclare.{declare}

abbrev pub parameter_symbol : AstParameter → ℕ → Symbol
parameter_symbol parameter scope =
    st_symbol_new kind_parameter (some parameter.name) none (some parameter.type) false false false
      false false parameter.name_span parameter.node (some scope)

-- The loop of `st_add_parameter_symbols`.
unfoldable pub st_add_parameter_symbols : List AstParameter → ℕ → SymbolTable → Bool × SymbolTable
st_add_parameter_symbols [] scope table = (true, table)
st_add_parameter_symbols (parameter ∷ parameters) scope table =
    declare (scope_lookup_local table scope parameter.name) parameter.name parameter.name_span scope
      (parameter_symbol parameter scope) table
    >>= st_add_parameter_symbols parameters scope

abbrev pub local_symbol : AstLocalBindingStatement → ℕ → Symbol
local_symbol binding scope =
    st_symbol_new kind_local (some binding.name) none (some binding.declared_type)
      binding.is_inferred_type binding.is_final false false binding.is_internal binding.name_span
      binding.node (some scope)

unfoldable pub st_add_local_symbol : AstLocalBindingStatement → ℕ → SymbolTable → Bool × SymbolTable
st_add_local_symbol binding scope table =
    declare (scope_lookup_local table scope binding.name) binding.name binding.name_span scope
      (local_symbol binding scope) table
