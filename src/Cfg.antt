-- ===== src/Cfg.antt =====
-- decompiler/src/cli/cfg: the control flow graph of one function of an executable.
pub mod Graph
pub mod Leaders
pub mod Build
pub mod Dominance
mod Search
mod Parents
mod Depth
mod Turned
mod Positions
mod Places
mod PostOrder
mod Ordered
mod Order
mod Begins
mod Scan
mod Division
mod Numbers
mod Transfers
mod Edges
mod Wired
mod Whole
mod Inside
mod Tests
