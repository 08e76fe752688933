-- ===== src/Symbols/Program.antt =====
-- The scoping rules of a whole program.
use calynda_for_wii.Symbols.Declared.{top_symbols}
use calynda_for_wii.Symbols.Whole.{no_clash}
use calynda_for_wii.Symbols.Added.{imports_of}
use calynda_for_wii.Symbols.Frames.{entry_of}
use calynda_for_wii.Symbols.Scoping.{
  names_expression, names_body, names_under, ◌▹◌, provided, Frame, Names,
}
use calynda_for_wii.Symbols.Ast.{
  top_level_extern, top_level_union, top_level_binding, top_level_boot, top_level_start, AstProgram,
  AstTopLevelDecl,
}
use calynda_for_wii.Base.{Option, some, List, [], ◌∷◌, map}

-- What a program says of its names before its bodies are read.
abbrev pub imported_names : AstProgram → Names
imported_names program = record {
  imports = map entry_of (imports_of program.imports (some 0));
  resolved = [];
  unresolved = [];
}

-- All the top-level names are visible in every body, also before their declaration.
abbrev pub top_frame : AstProgram → Frame
top_frame program = map entry_of (top_symbols 0 program.top_level_decls)

unfoldable pub names_decl : AstTopLevelDecl → List Frame → Names → Option Names
names_decl (top_level_start decl) env n = names_under decl.parameters (names_body decl.body) env n
names_decl (top_level_boot decl) env n = names_under decl.parameters (names_body decl.body) env n
names_decl (top_level_binding decl) env n = names_expression decl.initializer env n
names_decl (top_level_union decl) env n = some n
names_decl (top_level_extern decl) env n = some n

unfoldable pub names_decls : List AstTopLevelDecl → List Frame → Names → Option Names
names_decls [] env n = some n
names_decls (decl ∷ decls) env n = names_decl decl env n ▹ names_decls decls env

unfoldable pub names_program : AstProgram → Option Names
names_program program =
    provided (no_clash program) (imported_names program)
    ▹ names_decls program.top_level_decls (top_frame program ∷ [])
