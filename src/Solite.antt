-- ===== src/Solite.antt =====
-- solite_runtime/src: the reactive signals, effects and memos of the Solite runtime.
pub mod State
pub mod Effect
pub mod Signal
pub mod Memo
mod Queue
mod Calls
mod Reach
mod Observers
mod Tracking
mod Batch
mod Tests
