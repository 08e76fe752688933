-- ===== src/Symbols/Follows.antt =====
-- The walk over the bodies follows the scoping rules, by recursion on the tree.
use calynda_for_wii.Symbols.State.{SymbolTable, scope_lambda}
use calynda_for_wii.Base.{ℕ, Bool, true, Option, some, List, [], inl, refl}
use calynda_for_wii.Symbols.Imports.{◌>>=◌}
use calynda_for_wii.Symbols.Tree.{
  AstExpression, no_expression, literal, identifier, lambda, assignment, ternary, binary, unary,
  call, index, member, cast, array_literal, grouping, discard, post_increment, post_decrement,
  AstExpressionList, no_more, item, AstLiteral, literal_integer, literal_float, literal_char,
  literal_string, literal_bool, literal_template, literal_null, AstTemplatePartList, no_parts,
  text_part, expression_part, AstLambdaBody, body_block, body_expression, AstStatement,
  statement_local_binding, statement_return, statement_throw, statement_expression, statement_exit,
  statement_manual, statement_manual_empty, AstBlock, block, AstStatementList, end, next,
}
use calynda_for_wii.Symbols.Walk.{
  st_analyze_expression, st_analyze_expressions, st_analyze_literal, st_analyze_parts,
  st_analyze_body, st_analyze_block, st_analyze_statements, st_analyze_statement,
}
use calynda_for_wii.Symbols.Scoping.{
  ◌▹◌, Names, names_expression, names_expressions, names_literal, names_parts, names_body,
  names_block, names_statements, names_statement, frame_after, Frame,
}
use calynda_for_wii.Symbols.Refines.{
  Follows, InFrame, Follows-nothing, Follows-then, identifier-Follows, in_scope_of-Follows,
  Follows-InFrame, local-InFrame, InFrame-then, block-Follows,
}

abbrev frame_of : AstStatementList → Frame → Frame
frame_of end frame = frame
frame_of (next statement statements) frame = frame_of statements (frame_after statement frame)

nothing-InFrame :
    (frame : Frame) → InFrame (λ scope table. (true, table)) (λ env n. some n) frame frame
nothing-InFrame frame outer parent env error table c h = inl (table, refl, refl, h)

three-Follow :
    (walk walk' walk'' : ℕ → SymbolTable → Bool × SymbolTable)
    (names names' names'' : List Frame → Names → Option Names)
    → Follows walk names
    → Follows walk' names'
    → Follows walk'' names''
    → Follows
        (λ scope table. walk scope table >>= walk' scope >>= walk'' scope)
        (λ env n. names env n ▹ names' env ▹ names'' env)
three-Follow walk walk' walk'' names names' names'' first second third =
    Follows-then (λ scope table. walk scope table >>= walk' scope) walk''
      (λ env n. names env n ▹ names' env) names''
      (Follows-then walk walk' names names' first second) third

mutual
  unfolding st_analyze_expression names_expression

  pub st_analyze_expression-Follows :
      (e : AstExpression) → Follows (st_analyze_expression e) (names_expression e)
  st_analyze_expression-Follows no_expression = Follows-nothing
  st_analyze_expression-Follows (literal node span l) = st_analyze_literal-Follows l
  st_analyze_expression-Follows (identifier node span name) = identifier-Follows node span name
  st_analyze_expression-Follows (lambda node span parameters body) =
      in_scope_of-Follows scope_lambda node parameters (st_analyze_body body) (names_body body)
        (st_analyze_body-Follows body)
  st_analyze_expression-Follows (assignment node span operator target value) =
      Follows-then (st_analyze_expression target) (st_analyze_expression value)
        (names_expression target) (names_expression value) (st_analyze_expression-Follows target)
        (st_analyze_expression-Follows value)
  st_analyze_expression-Follows (ternary node span condition then_branch else_branch) =
      three-Follow (st_analyze_expression condition) (st_analyze_expression then_branch)
        (st_analyze_expression else_branch) (names_expression condition)
        (names_expression then_branch) (names_expression else_branch)
        (st_analyze_expression-Follows condition) (st_analyze_expression-Follows then_branch)
        (st_analyze_expression-Follows else_branch)
  st_analyze_expression-Follows (binary node span operator left right) =
      Follows-then (st_analyze_expression left) (st_analyze_expression right)
        (names_expression left) (names_expression right) (st_analyze_expression-Follows left)
        (st_analyze_expression-Follows right)
  st_analyze_expression-Follows (unary node span operator operand) =
      st_analyze_expression-Follows operand
  st_analyze_expression-Follows (call node span callee arguments) =
      Follows-then (st_analyze_expression callee) (st_analyze_expressions arguments)
        (names_expression callee) (names_expressions arguments)
        (st_analyze_expression-Follows callee) (st_analyze_expressions-Follows arguments)
  st_analyze_expression-Follows (index node span target i) =
      Follows-then (st_analyze_expression target) (st_analyze_expression i)
        (names_expression target) (names_expression i) (st_analyze_expression-Follows target)
        (st_analyze_expression-Follows i)
  st_analyze_expression-Follows (member node span target name) =
      st_analyze_expression-Follows target
  st_analyze_expression-Follows (cast node span target_type e) = st_analyze_expression-Follows e
  st_analyze_expression-Follows (array_literal node span elements) =
      st_analyze_expressions-Follows elements
  st_analyze_expression-Follows (grouping node span inner) = st_analyze_expression-Follows inner
  st_analyze_expression-Follows (discard node span) = Follows-nothing
  st_analyze_expression-Follows (post_increment node span operand) =
      st_analyze_expression-Follows operand
  st_analyze_expression-Follows (post_decrement node span operand) =
      st_analyze_expression-Follows operand

  st_analyze_expressions-Follows :
      (items : AstExpressionList) → Follows (st_analyze_expressions items) (names_expressions items)
  st_analyze_expressions-Follows no_more = Follows-nothing
  st_analyze_expressions-Follows (item e items) =
      Follows-then (st_analyze_expression e) (st_analyze_expressions items) (names_expression e)
        (names_expressions items) (st_analyze_expression-Follows e)
        (st_analyze_expressions-Follows items)

  st_analyze_literal-Follows : (l : AstLiteral) → Follows (st_analyze_literal l) (names_literal l)
  st_analyze_literal-Follows (literal_template parts) = st_analyze_parts-Follows parts
  st_analyze_literal-Follows (literal_integer text) = Follows-nothing
  st_analyze_literal-Follows (literal_float text) = Follows-nothing
  st_analyze_literal-Follows (literal_char text) = Follows-nothing
  st_analyze_literal-Follows (literal_string text) = Follows-nothing
  st_analyze_literal-Follows (literal_bool value) = Follows-nothing
  st_analyze_literal-Follows literal_null = Follows-nothing

  st_analyze_parts-Follows :
      (parts : AstTemplatePartList) → Follows (st_analyze_parts parts) (names_parts parts)
  st_analyze_parts-Follows no_parts = Follows-nothing
  st_analyze_parts-Follows (text_part text parts) = st_analyze_parts-Follows parts
  st_analyze_parts-Follows (expression_part e parts) =
      Follows-then (st_analyze_expression e) (st_analyze_parts parts) (names_expression e)
        (names_parts parts) (st_analyze_expression-Follows e) (st_analyze_parts-Follows parts)

  pub st_analyze_body-Follows :
      (body : AstLambdaBody) → Follows (st_analyze_body body) (names_body body)
  st_analyze_body-Follows (body_block b) = st_analyze_block-Follows b
  st_analyze_body-Follows (body_expression e) = st_analyze_expression-Follows e

  st_analyze_block-Follows : (b : AstBlock) → Follows (st_analyze_block b) (names_block b)
  st_analyze_block-Follows (block node statements) =
      block-Follows node (st_analyze_statements statements) (names_statements statements [])
        (frame_of statements []) (st_analyze_statements-InFrame statements [])

  st_analyze_statements-InFrame :
      (statements : AstStatementList) (frame : Frame)
      → InFrame
          (st_analyze_statements statements)
          (names_statements statements frame)
          frame
          (frame_of statements frame)
  st_analyze_statements-InFrame end frame = nothing-InFrame frame
  st_analyze_statements-InFrame (next statement statements) frame =
      let frame' = frame_after statement frame in
      InFrame-then (st_analyze_statement statement) (st_analyze_statements statements)
        (names_statement statement frame) (names_statements statements frame') frame frame'
        (frame_of statements frame') (st_analyze_statement-InFrame statement frame)
        (st_analyze_statements-InFrame statements frame')

  st_analyze_statement-InFrame :
      (statement : AstStatement) (frame : Frame)
      → InFrame
          (st_analyze_statement statement)
          (names_statement statement frame)
          frame
          (frame_after statement frame)
  st_analyze_statement-InFrame (statement_local_binding b initializer) frame =
      local-InFrame b (st_analyze_expression initializer) (names_expression initializer) frame
        (st_analyze_expression-Follows initializer)
  st_analyze_statement-InFrame (statement_return e) frame =
      Follows-InFrame (st_analyze_expression e) (names_expression e) frame
        (st_analyze_expression-Follows e)
  st_analyze_statement-InFrame (statement_throw e) frame =
      Follows-InFrame (st_analyze_expression e) (names_expression e) frame
        (st_analyze_expression-Follows e)
  st_analyze_statement-InFrame (statement_expression e) frame =
      Follows-InFrame (st_analyze_expression e) (names_expression e) frame
        (st_analyze_expression-Follows e)
  st_analyze_statement-InFrame statement_exit frame = nothing-InFrame frame
  st_analyze_statement-InFrame (statement_manual parameters body is_checked) frame =
      Follows-InFrame (st_analyze_block body) (names_block body) frame
        (st_analyze_block-Follows body)
  st_analyze_statement-InFrame (statement_manual_empty parameters is_checked) frame =
      nothing-InFrame frame
