-- ===== src/Symbols/Ast.antt =====
-- compiler/src/ast/ast_types.h and ast_decl_types.h: the declarations of a program, as the symbol
-- table reads them. A type, and a node that is only pointed to, is a number, its address; an array with
-- its count is a list, and a name is its bytes.
use calynda_for_wii.Base.{ℕ, Bool, Option, List, Bytes}
pub use calynda_for_wii.Symbols.Tree.{
  AstSourceSpan, AstParameter, AstLocalBindingStatement, AstExpression, AstLambdaBody,
}

pub data AstModifier : Type 0 where
  modifier_public modifier_private modifier_final : AstModifier
  modifier_export modifier_static modifier_internal : AstModifier

pub record AstQualifiedName : Type 0 where
  pub segments : List Bytes
  pub source_span : AstSourceSpan
  pub tail_span : AstSourceSpan

-- `node` is the address of the declaration.
pub record AstBindingDecl : Type 0 where
  pub node : ℕ
  pub modifiers : List AstModifier
  pub is_inferred_type : Bool
  pub declared_type : ℕ
  pub name : Bytes
  pub name_span : AstSourceSpan
  pub initializer : AstExpression

pub record AstExternDecl : Type 0 where
  pub node : ℕ
  pub name : Bytes
  pub return_type : ℕ
  pub parameters : ℕ
  pub name_span : AstSourceSpan

pub record AstUnionVariant : Type 0 where
  pub name : Bytes
  pub payload_type : Option ℕ

pub record AstUnionDecl : Type 0 where
  pub node : ℕ
  pub modifiers : List AstModifier
  pub name : Bytes
  pub name_span : AstSourceSpan
  pub generic_params : List Bytes
  pub variants : List AstUnionVariant

pub record AstStartDecl : Type 0 where
  pub node : ℕ
  pub parameters : List AstParameter
  pub body : AstLambdaBody
  pub start_span : AstSourceSpan

pub record AstBootDecl : Type 0 where
  pub node : ℕ
  pub parameters : List AstParameter
  pub body : AstLambdaBody
  pub boot_span : AstSourceSpan

pub data AstTopLevelDecl : Type 0 where
  top_level_start : AstStartDecl → AstTopLevelDecl
  top_level_boot : AstBootDecl → AstTopLevelDecl
  top_level_binding : AstBindingDecl → AstTopLevelDecl
  top_level_union : AstUnionDecl → AstTopLevelDecl
  top_level_extern : AstExternDecl → AstTopLevelDecl

pub data AstImportKind : Type 0 where
  import_plain import_alias import_wildcard import_selective : AstImportKind

pub record AstImportDecl : Type 0 where
  pub node : ℕ
  pub kind : AstImportKind
  pub module_name : AstQualifiedName
  pub alias : Bytes
  pub selected_names : List Bytes

pub record AstProgram : Type 0 where
  pub node : ℕ
  pub has_package : Bool
  pub package_name : AstQualifiedName
  pub package_name_node : ℕ
  pub imports : List AstImportDecl
  pub top_level_decls : List AstTopLevelDecl
