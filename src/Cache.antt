-- ===== src/Cache.antt =====
-- incremental_cache.py: the memoized enumerations, on disk under keys made from the inputs.
pub mod Key
pub mod KeyProofs
pub mod Payload
pub mod Store
pub mod RoundTrip
pub mod Entries
pub mod Lookups
