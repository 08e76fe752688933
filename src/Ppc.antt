-- ===== src/Ppc.antt =====
-- decompiler/src/ppc: the decoder of PowerPC Broadway instructions.
pub mod Op
pub mod Insn
pub mod DecodeExt
pub mod Decode
mod Bounds
mod Mnemonics
mod Multiply
mod Encode
mod EncodeExt
mod EncodeXform
mod EncodeBranch
pub mod Aligned
mod Tests
