-- ===== src/Broadcast.antt =====
-- The broadcast classes of peer_replication.py: the flood of derivations to every peer.
pub mod Sender
pub mod Receiver
pub mod Steps
pub mod Completion
pub mod Flood
