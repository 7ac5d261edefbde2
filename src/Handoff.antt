-- ===== src/Handoff.antt =====
-- The primary's side of the stream: what suit_task.py does with the messages of the dependency
-- graph's worker.
pub mod TaskIds
pub mod Headers
pub mod Tasks
pub mod Suit
pub mod Making
pub mod Gating
pub mod Handling
pub mod Reconciled
pub mod Sent
pub mod Affine
pub mod Raising
pub mod Discover
pub mod Discovered
