-- ===== src/Replication.antt =====
-- peer_replication.py: the K-fold replication of toolchain outpaths between secondaries.
pub mod Context
pub mod Sender
pub mod Settle
pub mod Offers
pub mod Chosen
pub mod Attempt
pub mod Events
pub mod Quiet
pub mod Settling
pub mod History
pub mod SettleSteps
pub mod Cancelling
pub mod Converged
pub mod Receiver
pub mod Repair
pub mod Handshake
pub mod Repairs
pub mod Excluded
