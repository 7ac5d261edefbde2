-- ===== src/Partition.antt =====
-- python/compiler_suit_runner/partition.py: the utilities of the partition pipeline. `Shards`,
-- `ShardFiles`, `Frequencies` and `Envelope` model the code, the other modules prove.
pub mod Variant
pub mod Shards
pub mod ShardFiles
pub mod Frequencies
pub mod Envelope
pub mod Sets
pub mod Classify
pub mod RoundTrip
pub mod Splitting
pub mod Slices
pub mod Building
