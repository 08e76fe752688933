-- ===== src/Symbols.antt =====
-- compiler/src/sema/symbol_table*.c: the symbol table of the compiler.
pub mod Tree
pub mod Ast
pub mod State
pub mod Core
pub mod Query
pub mod Imports
pub mod Predeclare
pub mod Locals
pub mod Walk
pub mod Build
mod Scoping
mod Frames
mod Resolved
mod Runs
mod Refines
mod Follows
mod Program
mod Built
mod Names
mod Added
mod Declared
mod Whole
mod Visible
mod Shadows
mod Parents
mod Tests
