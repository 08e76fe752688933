-- ===== src/Symbols/Walk.antt =====
-- compiler/src/sema/symbol_table_analyze.c and symbol_table_analyze_expr.c: the walk over the bodies of
-- a program, which opens the scopes and resolves the identifiers; and `symbol_table_build`.
use calynda_for_wii.Symbols.Locals.{st_add_local_symbol, st_add_parameter_symbols}
use calynda_for_wii.Symbols.Query.{symbol_table_lookup}
use calynda_for_wii.Symbols.Core.{
  st_unresolved_append, st_scope_new, st_resolutions_append, st_imports_append, st_symbol_new,
}
use calynda_for_wii.Symbols.Tree.{
  AstStatement, AstStatementList, AstBlock, AstLambdaBody, AstTemplatePartList, AstLiteral,
  AstExpressionList, array_literal, cast, member, index, call, unary, binary, ternary, assignment,
  lambda, identifier, literal, AstParameter, AstExpression, AstSourceSpan, no_expression, grouping,
  discard, post_increment, post_decrement, no_more, item, literal_integer, literal_float,
  literal_char, literal_string, literal_bool, literal_template, literal_null, no_parts, text_part,
  expression_part, body_block, body_expression, statement_local_binding, statement_return,
  statement_throw, statement_expression, statement_exit, statement_manual, statement_manual_empty,
  block, end, next,
}
use calynda_for_wii.Symbols.State.{
  scope_block, scope_lambda, kind_import, Symbol, ScopeKind, SymbolTable,
}
use calynda_for_wii.Base.{
  ℕ, Bool, true, false, Option, none, some, List, [], ◌∷◌, Bytes, ◌==◌, if◌then◌else◌,
}
use calynda_for_wii.Symbols.Imports.{◌>>=◌}

-- The text behind the last dot, `strrchr(text, '.') + 1`, if there is a dot.
abbrev pub behind_last_dot : Bytes → Option Bytes
behind_last_dot [] = none
behind_last_dot (c ∷ text) = elim (behind_last_dot text) [
  | some tail ↦ some tail
  | none ↦ if c == 46 then some text else none
]

-- A symbol of an import has a qualified name.
abbrev pub module_alias : Option Bytes → Bytes
module_alias none = []
module_alias (some qualified_name) = elim (behind_last_dot qualified_name) [
  | some tail ↦ tail
  | none ↦ qualified_name
]

abbrev pub find_wildcard : List Symbol → Option Symbol
find_wildcard [] = none
find_wildcard (symbol ∷ symbols) =
    if symbol.is_wildcard_import then some symbol else find_wildcard symbols

-- The symbol that a wildcard import gives to an identifier.
abbrev pub synthetic_symbol : Symbol → Bytes → ℕ → Symbol
synthetic_symbol sentinel name scope =
    record (st_symbol_new kind_import (some name) (some (module_alias sentinel.qualified_name)) none
      false false false false false sentinel.declaration_span sentinel.declaration (some scope)) {
        is_wildcard_import = true;
      }

abbrev pub append_synthetic : Option Symbol → Bytes → ℕ → SymbolTable → Option Symbol × SymbolTable
append_synthetic none name scope table = (none, table)
append_synthetic (some sentinel) name scope table =
    let symbol = synthetic_symbol sentinel name scope in
    (some symbol, st_imports_append symbol table)

unfoldable pub st_try_wildcard_resolve : Bytes → ℕ → SymbolTable → Option Symbol × SymbolTable
st_try_wildcard_resolve name scope table =
    append_synthetic (find_wildcard table.imports) name scope table

-- The symbol of an identifier, with the table that may have a new import.
abbrev pub resolved_symbol : Option Symbol → Bytes → ℕ → SymbolTable → Option Symbol × SymbolTable
resolved_symbol (some symbol) name scope table = (some symbol, table)
resolved_symbol none name scope table = st_try_wildcard_resolve name scope table

abbrev pub append_resolution :
    ℕ → AstSourceSpan → ℕ → Option Symbol × SymbolTable → Bool × SymbolTable
append_resolution node span scope (some symbol, table) =
    (true, st_resolutions_append node span scope symbol table)
append_resolution node span scope (none, table) = (true, st_unresolved_append node span scope table)

-- The case of an identifier.
unfoldable pub analyze_identifier : ℕ → AstSourceSpan → Bytes → ℕ → SymbolTable → Bool × SymbolTable
analyze_identifier node span name scope table =
    append_resolution node span scope
      (resolved_symbol (symbol_table_lookup table (some scope) name) name scope table)

-- The body of a lambda, a start or a boot declaration runs in a new scope that has the parameters.
abbrev pub in_scope_of :
    ScopeKind
    → ℕ
    → List AstParameter
    → (ℕ → SymbolTable → Bool × SymbolTable)
    → ℕ
    → SymbolTable
    → Bool × SymbolTable
in_scope_of kind owner parameters body parent table =
    let (opened, scope) = st_scope_new kind owner (some parent) table in
    st_add_parameter_symbols parameters scope opened >>= body scope

unfoldable mutual
  pub st_analyze_expression : AstExpression → ℕ → SymbolTable → Bool × SymbolTable
  st_analyze_expression no_expression scope table = (true, table)
  st_analyze_expression (literal node span l) scope table = st_analyze_literal l scope table
  st_analyze_expression (identifier node span name) scope table =
      analyze_identifier node span name scope table
  st_analyze_expression (lambda node span parameters body) scope table =
      in_scope_of scope_lambda node parameters (st_analyze_body body) scope table
  st_analyze_expression (assignment node span operator target value) scope table =
      st_analyze_expression target scope table >>= st_analyze_expression value scope
  st_analyze_expression (ternary node span condition then_branch else_branch) scope table =
      st_analyze_expression condition scope table
      >>= st_analyze_expression then_branch scope
      >>= st_analyze_expression else_branch scope
  st_analyze_expression (binary node span operator left right) scope table =
      st_analyze_expression left scope table >>= st_analyze_expression right scope
  st_analyze_expression (unary node span operator operand) scope table =
      st_analyze_expression operand scope table
  st_analyze_expression (call node span callee arguments) scope table =
      st_analyze_expression callee scope table >>= st_analyze_expressions arguments scope
  st_analyze_expression (index node span target i) scope table =
      st_analyze_expression target scope table >>= st_analyze_expression i scope
  st_analyze_expression (member node span target name) scope table =
      st_analyze_expression target scope table
  st_analyze_expression (cast node span target_type e) scope table =
      st_analyze_expression e scope table
  st_analyze_expression (array_literal node span elements) scope table =
      st_analyze_expressions elements scope table
  st_analyze_expression (grouping node span inner) scope table =
      st_analyze_expression inner scope table
  st_analyze_expression (discard node span) scope table = (true, table)
  st_analyze_expression (post_increment node span operand) scope table =
      st_analyze_expression operand scope table
  st_analyze_expression (post_decrement node span operand) scope table =
      st_analyze_expression operand scope table

  -- The loops over arguments and elements.
  pub st_analyze_expressions : AstExpressionList → ℕ → SymbolTable → Bool × SymbolTable
  st_analyze_expressions no_more scope table = (true, table)
  st_analyze_expressions (item e items) scope table =
      st_analyze_expression e scope table >>= st_analyze_expressions items scope

  pub st_analyze_literal : AstLiteral → ℕ → SymbolTable → Bool × SymbolTable
  st_analyze_literal (literal_template parts) scope table = st_analyze_parts parts scope table
  st_analyze_literal (literal_integer text) scope table = (true, table)
  st_analyze_literal (literal_float text) scope table = (true, table)
  st_analyze_literal (literal_char text) scope table = (true, table)
  st_analyze_literal (literal_string text) scope table = (true, table)
  st_analyze_literal (literal_bool value) scope table = (true, table)
  st_analyze_literal literal_null scope table = (true, table)

  pub st_analyze_parts : AstTemplatePartList → ℕ → SymbolTable → Bool × SymbolTable
  st_analyze_parts no_parts scope table = (true, table)
  st_analyze_parts (text_part text parts) scope table = st_analyze_parts parts scope table
  st_analyze_parts (expression_part e parts) scope table =
      st_analyze_expression e scope table >>= st_analyze_parts parts scope

  pub st_analyze_body : AstLambdaBody → ℕ → SymbolTable → Bool × SymbolTable
  st_analyze_body (body_block b) scope table = st_analyze_block b scope table
  st_analyze_body (body_expression e) scope table = st_analyze_expression e scope table

  pub st_analyze_block : AstBlock → ℕ → SymbolTable → Bool × SymbolTable
  st_analyze_block (block node statements) scope table =
      let (opened, inner) = st_scope_new scope_block node (some scope) table in
      st_analyze_statements statements inner opened

  pub st_analyze_statements : AstStatementList → ℕ → SymbolTable → Bool × SymbolTable
  st_analyze_statements end scope table = (true, table)
  st_analyze_statements (next statement statements) scope table =
      st_analyze_statement statement scope table >>= st_analyze_statements statements scope

  pub st_analyze_statement : AstStatement → ℕ → SymbolTable → Bool × SymbolTable
  st_analyze_statement (statement_local_binding binding initializer) scope table =
      st_analyze_expression initializer scope table >>= st_add_local_symbol binding scope
  st_analyze_statement (statement_return e) scope table = st_analyze_expression e scope table
  st_analyze_statement (statement_throw e) scope table = st_analyze_expression e scope table
  st_analyze_statement (statement_expression e) scope table = st_analyze_expression e scope table
  st_analyze_statement statement_exit scope table = (true, table)
  st_analyze_statement (statement_manual parameters body is_checked) scope table =
      st_analyze_block body scope table
  st_analyze_statement (statement_manual_empty parameters is_checked) scope table = (true, table)
