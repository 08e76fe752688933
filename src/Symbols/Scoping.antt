-- ===== src/Symbols/Scoping.antt =====
-- The scoping rules of a program, without a table: which declaration each identifier stands for, by
-- recursion on the syntax tree under a list of frames, the innermost first.
use calynda_for_wii.Symbols.Query.{is_named}
use calynda_for_wii.Base.{
  ℕ, Bool, true, false, not, ◌&&◌, Option, none, some, List, [], ◌∷◌, ◌++◌, Bytes, if◌then◌else◌,
}
use calynda_for_wii.Symbols.Tree.{
  AstParameter, AstLocalBindingStatement, AstExpression, no_expression, literal, identifier, lambda,
  assignment, ternary, binary, unary, call, index, member, cast, array_literal, grouping, discard,
  post_increment, post_decrement, AstExpressionList, no_more, item, AstLiteral, literal_integer,
  literal_float, literal_char, literal_string, literal_bool, literal_template, literal_null,
  AstTemplatePartList, no_parts, text_part, expression_part, AstLambdaBody, body_block,
  body_expression, AstStatement, statement_local_binding, statement_return, statement_throw,
  statement_expression, statement_exit, statement_manual, statement_manual_empty, AstBlock, block,
  AstStatementList, end, next,
}

-- A declared name, with the address of its declaration.
pub record Entry : Type 0 where
  pub name : Option Bytes
  pub declaration : ℕ
  pub is_wildcard : Bool

abbrev pub Frame : Type 0
Frame = List Entry

-- The imports, the identifiers with what they stand for, and those that stand for nothing.
pub record Names : Type 0 where
  pub imports : Frame
  pub resolved : List (ℕ × ℕ)
  pub unresolved : List ℕ

abbrev pub find_entry : Frame → Bytes → Option Entry
find_entry [] name = none
find_entry (e ∷ frame) name = if is_named e.name name then some e else find_entry frame name

abbrev pub is_entry : Option Entry → Bool
is_entry none = false
is_entry (some e) = true

abbrev pub has_entry : Frame → Bytes → Bool
has_entry frame name = is_entry (find_entry frame name)

abbrev pub or_outer : Option Entry → Option Entry → Option Entry
or_outer none other = other
or_outer (some e) other = some e

abbrev pub find_in_frames : List Frame → Bytes → Option Entry
find_in_frames [] name = none
find_in_frames (frame ∷ env) name = or_outer (find_entry frame name) (find_in_frames env name)

abbrev pub find_wildcard_entry : Frame → Option Entry
find_wildcard_entry [] = none
find_wildcard_entry (e ∷ frame) = if e.is_wildcard then some e else find_wildcard_entry frame

abbrev pub resolve_to : ℕ → ℕ → Names → Names
resolve_to node declaration n = record n { resolved = n.resolved ++ (node, declaration) ∷ [] }

-- A wildcard import takes any name, and is an import of that name from then on.
abbrev pub resolve_by_wildcard : Option Entry → ℕ → Bytes → Names → Names
resolve_by_wildcard none node name n = record n { unresolved = n.unresolved ++ node ∷ [] }
resolve_by_wildcard (some w) node name n =
    let e : Entry = record { name = some name; declaration = w.declaration; is_wildcard = true } in
    resolve_to node w.declaration (record n { imports = n.imports ++ e ∷ [] })

abbrev pub resolve_by : Option Entry → ℕ → Bytes → Names → Names
resolve_by (some e) node name n = resolve_to node e.declaration n
resolve_by none node name n = resolve_by_wildcard (find_wildcard_entry n.imports) node name n

-- The innermost frame that has the name, then the imports of that name, then a wildcard import.
abbrev pub resolve : ℕ → Bytes → List Frame → Names → Names
resolve node name env n =
    resolve_by (or_outer (find_in_frames env name) (find_entry n.imports name)) node name n

-- `none` stands for a program that is refused.
infixl 5 ◌▹◌
abbrev pub ◌▹◌ : Option Names → (Names → Option Names) → Option Names
none ▹ f = none
some n ▹ f = f n

abbrev pub provided : Bool → Names → Option Names
provided b n = if b then some n else none

abbrev pub is_new : Option Bytes → Frame → Bool
is_new none frame = true
is_new (some name) frame = not (has_entry frame name)

-- The entries can be added to the frame one by one, none of them twice.
abbrev pub are_new : Frame → Frame → Bool
are_new frame [] = true
are_new frame (e ∷ entries) = is_new e.name frame && are_new (frame ++ e ∷ []) entries

abbrev pub parameter_entry : AstParameter → Entry
parameter_entry p = record { name = some p.name; declaration = p.node; is_wildcard = false }

abbrev pub parameter_frame : List AstParameter → Frame
parameter_frame [] = []
parameter_frame (p ∷ parameters) = parameter_entry p ∷ parameter_frame parameters

abbrev pub local_entry : AstLocalBindingStatement → Entry
local_entry b = record { name = some b.name; declaration = b.node; is_wildcard = false }

-- The parameters are distinct, and the body sees them.
abbrev pub names_under :
    List AstParameter → (List Frame → Names → Option Names) → List Frame → Names → Option Names
names_under parameters body env n =
    provided (are_new [] (parameter_frame parameters)) n ▹ body (parameter_frame parameters ∷ env)

-- A local binding is visible in the statements behind it.
abbrev pub frame_after : AstStatement → Frame → Frame
frame_after (statement_local_binding b initializer) frame = frame ++ local_entry b ∷ []
frame_after (statement_return e) frame = frame
frame_after (statement_throw e) frame = frame
frame_after (statement_expression e) frame = frame
frame_after statement_exit frame = frame
frame_after (statement_manual parameters body is_checked) frame = frame
frame_after (statement_manual_empty parameters is_checked) frame = frame

unfoldable mutual
  pub names_expression : AstExpression → List Frame → Names → Option Names
  names_expression no_expression env n = some n
  names_expression (literal node span l) env n = names_literal l env n
  names_expression (identifier node span name) env n = some (resolve node name env n)
  names_expression (lambda node span parameters body) env n =
      names_under parameters (names_body body) env n
  names_expression (assignment node span operator target value) env n =
      names_expression target env n ▹ names_expression value env
  names_expression (ternary node span condition then_branch else_branch) env n =
      names_expression condition env n
      ▹ names_expression then_branch env
      ▹ names_expression else_branch env
  names_expression (binary node span operator left right) env n =
      names_expression left env n ▹ names_expression right env
  names_expression (unary node span operator operand) env n = names_expression operand env n
  names_expression (call node span callee arguments) env n =
      names_expression callee env n ▹ names_expressions arguments env
  names_expression (index node span target i) env n =
      names_expression target env n ▹ names_expression i env
  names_expression (member node span target name) env n = names_expression target env n
  names_expression (cast node span target_type e) env n = names_expression e env n
  names_expression (array_literal node span elements) env n = names_expressions elements env n
  names_expression (grouping node span inner) env n = names_expression inner env n
  names_expression (discard node span) env n = some n
  names_expression (post_increment node span operand) env n = names_expression operand env n
  names_expression (post_decrement node span operand) env n = names_expression operand env n

  pub names_expressions : AstExpressionList → List Frame → Names → Option Names
  names_expressions no_more env n = some n
  names_expressions (item e items) env n = names_expression e env n ▹ names_expressions items env

  pub names_literal : AstLiteral → List Frame → Names → Option Names
  names_literal (literal_template parts) env n = names_parts parts env n
  names_literal (literal_integer text) env n = some n
  names_literal (literal_float text) env n = some n
  names_literal (literal_char text) env n = some n
  names_literal (literal_string text) env n = some n
  names_literal (literal_bool value) env n = some n
  names_literal literal_null env n = some n

  pub names_parts : AstTemplatePartList → List Frame → Names → Option Names
  names_parts no_parts env n = some n
  names_parts (text_part text parts) env n = names_parts parts env n
  names_parts (expression_part e parts) env n = names_expression e env n ▹ names_parts parts env

  pub names_body : AstLambdaBody → List Frame → Names → Option Names
  names_body (body_block b) env n = names_block b env n
  names_body (body_expression e) env n = names_expression e env n

  pub names_block : AstBlock → List Frame → Names → Option Names
  names_block (block node statements) env n = names_statements statements [] env n

  pub names_statements : AstStatementList → Frame → List Frame → Names → Option Names
  names_statements end frame env n = some n
  names_statements (next statement statements) frame env n =
      names_statement statement frame env n
      ▹ names_statements statements (frame_after statement frame) env

  -- The initializer of a binding does not see the binding.
  pub names_statement : AstStatement → Frame → List Frame → Names → Option Names
  names_statement (statement_local_binding b initializer) frame env n =
      names_expression initializer (frame ∷ env) n ▹ provided (is_new (some b.name) frame)
  names_statement (statement_return e) frame env n = names_expression e (frame ∷ env) n
  names_statement (statement_throw e) frame env n = names_expression e (frame ∷ env) n
  names_statement (statement_expression e) frame env n = names_expression e (frame ∷ env) n
  names_statement statement_exit frame env n = some n
  names_statement (statement_manual parameters body is_checked) frame env n =
      names_block body (frame ∷ env) n
  names_statement (statement_manual_empty parameters is_checked) frame env n = some n
