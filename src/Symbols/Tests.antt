-- ===== src/Symbols/Tests.antt =====
-- A small program with its table, and the theorems at it.
use calynda_for_wii.Symbols.Added.{imports_of}
use calynda_for_wii.Symbols.Frames.{entry_of}
use calynda_for_wii.Symbols.Scoping.{names_expression}
use calynda_for_wii.Symbols.Program.{names_decl, names_decls, names_program}
use calynda_for_wii.Base.{
  map, String, arith, ℕ, true, false, none, some, List, [], ◌∷◌, ◌≡◌, ◌⊎◌, ◌↔◌, refl, Bytes, codes,
}
use calynda_for_wii.Symbols.Ast.{
  AstBindingDecl, AstStartDecl, AstLocalBindingStatement, AstQualifiedName, AstImportDecl,
  import_selective, AstTopLevelDecl, top_level_binding, top_level_start, AstProgram, modifier_final,
}
use calynda_for_wii.Symbols.Tree.{
  AstExpression, AstBlock, AstParameter, body_expression, body_block, no_expression, identifier,
  lambda, call, item, no_more, block, next, end, statement_local_binding, statement_expression,
  statement_return,
}
use calynda_for_wii.Symbols.State.{
  Symbol, SymbolTable, zero_table, zero_span, scope_program, scope_block, kind_local,
}
use calynda_for_wii.Symbols.Core.{
  st_symbol_new, st_scope_new, st_scope_append_symbol, st_append_scope_child, st_imports_append,
  st_qualified_name_to_string,
}
use calynda_for_wii.Symbols.Query.{
  symbol_table_lookup, scope_lookup_local, symbol_table_find_import,
}
use calynda_for_wii.Symbols.Imports.{
  st_add_package_symbol, add_import, add_selected, add_import_decl, st_add_import_symbols,
}
use calynda_for_wii.Symbols.Predeclare.{predeclare, st_predeclare_top_level_bindings, build_names}
use calynda_for_wii.Symbols.Locals.{st_add_local_symbol}
use calynda_for_wii.Symbols.Shadows.{IsShadowed, st_add_local_symbol-IsShadowed}
use calynda_for_wii.Symbols.Whole.{no_clash, IsDeclared, build_names-cases}
use calynda_for_wii.Symbols.Visible.{Resolves, symbol_table_lookup-Resolves}

abbrev named : List Bytes → AstQualifiedName
named segments = record { segments = segments; source_span = zero_span; tail_span = zero_span }

abbrev import_math : AstImportDecl
import_math = record {
  node = 11;
  kind = import_selective;
  module_name = named (codes "std" ∷ codes "math" ∷ []);
  alias = [];
  selected_names = codes "sin" ∷ codes "cos" ∷ [];
}

abbrev binding : Bytes → AstTopLevelDecl
binding name = top_level_binding (record {
  node = 12;
  modifiers = modifier_final ∷ [];
  is_inferred_type = false;
  declared_type = 13;
  name = name;
  name_span = zero_span;
  initializer = identifier 14 zero_span (codes "sin");
})

abbrev program_of : List AstTopLevelDecl → AstProgram
program_of decls = record {
  node = 10;
  has_package = true;
  package_name = named (codes "app" ∷ []);
  package_name_node = 15;
  imports = import_math ∷ [];
  top_level_decls = decls;
}

abbrev start : AstStartDecl
start = record {
  node = 16;
  parameters = [];
  body = body_expression no_expression;
  start_span = zero_span;
}

abbrev good : AstProgram
good = program_of (binding (codes "tan") ∷ top_level_start start ∷ [])

-- The binding has the name of an import.
abbrev bad : AstProgram
bad = program_of (binding (codes "cos") ∷ [])

good_accepted : (build_names good).0 ≡ true
unfolding build_names st_scope_new st_add_package_symbol st_add_import_symbols add_import_decl
    add_selected add_import symbol_table_find_import st_qualified_name_to_string
    st_predeclare_top_level_bindings predeclare scope_lookup_local st_imports_append
good_accepted = refl

bad_refused : (build_names bad).0 ≡ false
unfolding build_names st_scope_new st_add_package_symbol st_add_import_symbols add_import_decl
    add_selected add_import symbol_table_find_import st_qualified_name_to_string
    st_predeclare_top_level_bindings predeclare scope_lookup_local st_imports_append
bad_refused = refl

build_names-cases_example :
    ((no_clash good ≡ true)
      × (table : SymbolTable) × (build_names good ≡ (true, table))
      × IsDeclared good table)
    ⊎ ((no_clash good ≡ false)
        × ((build_names good).0 ≡ false)
        × ((build_names good).1.has_error ≡ true))
build_names-cases_example = build_names-cases good

abbrev local : Bytes → ℕ → Symbol
local name scope =
    st_symbol_new kind_local (some name) none none false false false false false zero_span 20
      (some scope)

-- A block in the root scope; both declare `x`, and only the root declares `y`.
abbrev nested : SymbolTable
nested =
    let (with_root, root) = st_scope_new scope_program 10 none zero_table in
    let (with_block, inner_scope) = st_scope_new scope_block 21 (some root) with_root in
    st_scope_append_symbol inner_scope (local (codes "x") 1) (
      st_scope_append_symbol root (local (codes "y") 0)
        (st_scope_append_symbol root (local (codes "x") 0) with_block))

symbol_table_lookup-Resolves_example :
    (symbol_table_lookup nested (some 1) (codes "y") ≡ some (local (codes "y") 0))
    ↔ Resolves nested (codes "y") (some 1) (local (codes "y") 0)
unfolding st_scope_new st_append_scope_child st_scope_append_symbol
symbol_table_lookup-Resolves_example =
    symbol_table_lookup-Resolves nested (some 1) (codes "y") (local (codes "y") 0) refl refl

abbrev inner : AstLocalBindingStatement
inner = record {
  node = 30;
  is_inferred_type = true;
  declared_type = 31;
  is_final = false;
  is_internal = false;
  name = codes "y";
  name_span = zero_span;
}

-- The binding hides the one of the root scope.
st_add_local_symbol-IsShadowed_example :
    ((scope_lookup_local nested 1 (codes "y") ≡ none)
      × (after : SymbolTable) × (st_add_local_symbol inner 1 nested ≡ (true, after))
      × IsShadowed inner 1 nested after)
    ⊎ ((s : Symbol) × (scope_lookup_local nested 1 (codes "y") ≡ some s)
        × ((st_add_local_symbol inner 1 nested).0 ≡ false)
        × ((st_add_local_symbol inner 1 nested).1.has_error ≡ true)
        × ((st_add_local_symbol inner 1 nested).1.scopes ≡ nested.scopes))
unfolding st_scope_new st_append_scope_child st_scope_append_symbol
st_add_local_symbol-IsShadowed_example = st_add_local_symbol-IsShadowed inner 1 nested (omega arith)

inner_added : (st_add_local_symbol inner 1 nested).0 ≡ true
unfolding st_add_local_symbol scope_lookup_local st_scope_new st_append_scope_child
    st_scope_append_symbol
inner_added = refl

-- `(x) -> { y = x; y; z }` under the import of `sin`, with a start declaration that reads `f` and `sin`.
abbrev parameter : Bytes → ℕ → AstParameter
parameter name node = record {
  node = node;
  type = 40;
  is_varargs = false;
  name = name;
  name_span = zero_span;
}

abbrev reads : ℕ → String → AstExpression
reads node name = identifier node zero_span (codes name)

abbrev function_body : AstBlock
function_body = block 50 (
    next (statement_local_binding inner (reads 51 "x"))
      (next (statement_expression (reads 52 "y")) (next (statement_return (reads 53 "z")) end)))

abbrev function : AstBindingDecl
function = record {
  node = 54;
  modifiers = [];
  is_inferred_type = true;
  declared_type = 55;
  name = codes "f";
  name_span = zero_span;
  initializer = lambda 56 zero_span (parameter (codes "x") 57 ∷ []) (body_block function_body);
}

abbrev main : AstStartDecl
main = record {
  node = 60;
  parameters = parameter (codes "arguments") 61 ∷ [];
  body = body_expression (call 62 zero_span (reads 63 "f") (item (reads 64 "sin") no_more));
  start_span = zero_span;
}

abbrev whole : AstProgram
whole = program_of (top_level_start main ∷ top_level_binding function ∷ [])

whole_names :
    names_program whole
    ≡ some (record {
      imports = map entry_of (imports_of whole.imports (some 0));
      resolved = (63, 54) ∷ (64, 11) ∷ (51, 57) ∷ (52, 30) ∷ [];
      unresolved = 53 ∷ [];
    })
unfolding names_program names_decls names_decl names_expression st_qualified_name_to_string
whole_names = refl
