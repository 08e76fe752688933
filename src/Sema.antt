-- ===== src/Sema.antt =====
-- compiler/src/sema: the types of the type checker, its promotions, conversions and operators.
pub mod Primitive
pub mod PrimitiveToken
pub mod Lookahead
pub mod Checked
pub mod Convert
pub mod Operators
mod TypeText
mod Levels
mod Heads
mod Bindings
mod Scans
mod Equality
mod Promotion
mod Words
mod Assign
mod Binary
mod Compound
mod HeadTests
mod Tests
