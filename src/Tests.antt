-- ===== src/Tests.antt =====
-- Runs of the models on small inputs, and each theorem at a concrete input.
pub mod SpawnSamples
pub mod PartitionSamples
pub mod PlannerSamples
pub mod ReplicationSamples
pub mod CacheSamples
pub mod BroadcastSamples
pub mod HandoffSamples
pub mod HoldingSamples
