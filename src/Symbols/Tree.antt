-- ===== src/Symbols/Tree.antt =====
-- compiler/src/ast/ast_types.h and ast_decl_types.h: expressions, statements and blocks.
-- `node` is the address of a node. `no_expression` is NULL, an array with its count is a list type of
-- the tree, and the initializer of a local binding stands beside the binding's other fields.
use calynda_for_wii.Base.{ℕ, Bool, List, Bytes}
use calynda_for_wii.Sema.Primitive.{AstPrimitiveType}
use calynda_for_wii.Sema.Operators.{AstBinaryOperator, AstAssignmentOperator}

pub record AstSourceSpan : Type 0 where
  pub start_line : ℕ
  pub start_column : ℕ
  pub end_line : ℕ
  pub end_column : ℕ

pub record AstParameter : Type 0 where
  pub node : ℕ
  pub type : ℕ
  pub is_varargs : Bool
  pub name : Bytes
  pub name_span : AstSourceSpan

pub record AstLocalBindingStatement : Type 0 where
  pub node : ℕ
  pub is_inferred_type : Bool
  pub declared_type : ℕ
  pub is_final : Bool
  pub is_internal : Bool
  pub name : Bytes
  pub name_span : AstSourceSpan

pub data AstUnaryOperator : Type 0 where
  unary_logical_not unary_bitwise_not unary_negate unary_plus : AstUnaryOperator
  unary_pre_increment unary_pre_decrement unary_deref unary_address_of : AstUnaryOperator

mutual
  pub data AstExpression : Type 0 where
    no_expression : AstExpression
    literal : ℕ → AstSourceSpan → AstLiteral → AstExpression
    identifier : ℕ → AstSourceSpan → Bytes → AstExpression
    lambda : ℕ → AstSourceSpan → List AstParameter → AstLambdaBody → AstExpression
    assignment :
        ℕ → AstSourceSpan → AstAssignmentOperator → AstExpression → AstExpression → AstExpression
    ternary : ℕ → AstSourceSpan → AstExpression → AstExpression → AstExpression → AstExpression
    binary : ℕ → AstSourceSpan → AstBinaryOperator → AstExpression → AstExpression → AstExpression
    unary : ℕ → AstSourceSpan → AstUnaryOperator → AstExpression → AstExpression
    call : ℕ → AstSourceSpan → AstExpression → AstExpressionList → AstExpression
    index : ℕ → AstSourceSpan → AstExpression → AstExpression → AstExpression
    member : ℕ → AstSourceSpan → AstExpression → Bytes → AstExpression
    cast : ℕ → AstSourceSpan → AstPrimitiveType → AstExpression → AstExpression
    array_literal : ℕ → AstSourceSpan → AstExpressionList → AstExpression
    grouping : ℕ → AstSourceSpan → AstExpression → AstExpression
    discard : ℕ → AstSourceSpan → AstExpression
    post_increment : ℕ → AstSourceSpan → AstExpression → AstExpression
    post_decrement : ℕ → AstSourceSpan → AstExpression → AstExpression

  pub data AstExpressionList : Type 0 where
    no_more : AstExpressionList
    item : AstExpression → AstExpressionList → AstExpressionList

  pub data AstLiteral : Type 0 where
    literal_integer literal_float literal_char literal_string : Bytes → AstLiteral
    literal_bool : Bool → AstLiteral
    literal_template : AstTemplatePartList → AstLiteral
    literal_null : AstLiteral

  pub data AstTemplatePartList : Type 0 where
    no_parts : AstTemplatePartList
    text_part : Bytes → AstTemplatePartList → AstTemplatePartList
    expression_part : AstExpression → AstTemplatePartList → AstTemplatePartList

  pub data AstLambdaBody : Type 0 where
    body_block : AstBlock → AstLambdaBody
    body_expression : AstExpression → AstLambdaBody

  pub data AstStatement : Type 0 where
    statement_local_binding : AstLocalBindingStatement → AstExpression → AstStatement
    statement_return statement_throw statement_expression : AstExpression → AstStatement
    statement_exit : AstStatement
    statement_manual : List AstParameter → AstBlock → Bool → AstStatement
    statement_manual_empty : List AstParameter → Bool → AstStatement

  pub data AstBlock : Type 0 where
    block : ℕ → AstStatementList → AstBlock

  pub data AstStatementList : Type 0 where
    end : AstStatementList
    next : AstStatement → AstStatementList → AstStatementList
