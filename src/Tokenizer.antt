-- ===== src/Tokenizer.antt =====
-- compiler/src/tokenizer: the lexer of the Calynda compiler, one child module for each part.
pub mod TokenType
pub mod Position
pub mod Keywords
pub mod Literals
pub mod Template
pub mod Punctuation
pub mod Next
mod Ahead
pub mod Scanned
mod Progress
mod Slices
mod Nesting
pub mod Words
mod Names
mod Spaces
mod Integers
mod Tests
