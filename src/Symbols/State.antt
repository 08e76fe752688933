-- ===== src/Symbols/State.antt =====
-- compiler/src/sema/symbol_table.h: symbols, scopes and the table.
-- The scopes are a list in the order of their allocation, and a pointer to one is its place there;
-- allocations succeed. A symbol does not change once it is stored, so it stands where the source has a
-- pointer to it. The text of an error is kept as its format with the arguments.
use calynda_for_wii.Base.{ℕ, Bool, false, Option, none, List, [], Bytes, String}
use calynda_for_wii.Symbols.Ast.{AstSourceSpan}

pub data SymbolKind : Type 0 where
  kind_package kind_import kind_top_level_binding kind_extern kind_parameter : SymbolKind
  kind_local kind_union kind_type_parameter kind_variant : SymbolKind

pub data ScopeKind : Type 0 where
  scope_program scope_start scope_boot scope_lambda scope_block scope_union : ScopeKind

pub record Symbol : Type 0 where
  pub kind : SymbolKind
  pub name : Option Bytes
  pub qualified_name : Option Bytes
  pub declared_type : Option ℕ
  pub is_inferred_type : Bool
  pub is_final : Bool
  pub is_exported : Bool
  pub is_static : Bool
  pub is_internal : Bool
  pub generic_param_count : ℕ
  pub declaration_span : AstSourceSpan
  pub declaration : ℕ
  pub scope : Option ℕ
  pub variant_index : ℕ
  pub variant_has_payload : Bool
  pub variant_payload_type : Option ℕ
  pub is_wildcard_import : Bool

pub record Scope : Type 0 where
  pub kind : ScopeKind
  pub owner : ℕ
  pub parent : Option ℕ
  pub children : List ℕ
  pub symbols : List Symbol

-- `identifier` is the address of the expression.
pub record SymbolResolution : Type 0 where
  pub identifier : ℕ
  pub scope : ℕ
  pub source_span : AstSourceSpan
  pub symbol : Symbol

pub record UnresolvedIdentifier : Type 0 where
  pub identifier : ℕ
  pub scope : ℕ
  pub source_span : AstSourceSpan

pub data ErrorText : Type 0 where
  no_text : ErrorText
  duplicate_import_alias : Bytes → ErrorText
  ambiguous_import : Bytes → ErrorText
  duplicate_symbol : Bytes → ScopeKind → ErrorText

pub record SymbolTableError : Type 0 where
  pub primary_span : AstSourceSpan
  pub related_span : AstSourceSpan
  pub has_related_span : Bool
  pub message : ErrorText

pub record SymbolTable : Type 0 where
  pub program : ℕ
  pub package_symbol : Option Symbol
  pub imports : List Symbol
  pub scopes : List Scope
  pub root_scope : Option ℕ
  pub resolutions : List SymbolResolution
  pub unresolved_identifiers : List UnresolvedIdentifier
  pub error : SymbolTableError
  pub has_error : Bool

abbrev pub symbol_kind_name : SymbolKind → String
symbol_kind_name kind_package = "package"
symbol_kind_name kind_import = "import"
symbol_kind_name kind_top_level_binding = "top-level binding"
symbol_kind_name kind_extern = "extern C declaration"
symbol_kind_name kind_parameter = "parameter"
symbol_kind_name kind_local = "local"
symbol_kind_name kind_union = "union"
symbol_kind_name kind_type_parameter = "type parameter"
symbol_kind_name kind_variant = "variant"

abbrev pub scope_kind_name : ScopeKind → String
scope_kind_name scope_program = "program scope"
scope_kind_name scope_start = "start scope"
scope_kind_name scope_boot = "boot scope"
scope_kind_name scope_lambda = "lambda scope"
scope_kind_name scope_block = "block scope"
scope_kind_name scope_union = "union scope"

abbrev pub zero_span : AstSourceSpan
zero_span = record { start_line = 0; start_column = 0; end_line = 0; end_column = 0 }

-- `symbol_table_init`.
abbrev pub zero_table : SymbolTable
zero_table = record {
  program = 0;
  package_symbol = none;
  imports = [];
  scopes = [];
  root_scope = none;
  resolutions = [];
  unresolved_identifiers = [];
  error = record {
    primary_span = zero_span;
    related_span = zero_span;
    has_related_span = false;
    message = no_text;
  };
  has_error = false;
}
