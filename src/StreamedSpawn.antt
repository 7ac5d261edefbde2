-- ===== src/StreamedSpawn.antt =====
-- python/compiler_suit_runner/streamed_spawn.py: the wire protocol between the dependency-graph
-- worker and the primary. `Checks`, `Codec`, `Encoder` and `Decoder` model the code, the other
-- modules prove.
pub mod Checks
pub mod Codec
pub mod Encoder
pub mod Decoder
pub mod RoundTrip
pub mod Splice
pub mod Adding
pub mod Stream
pub mod Batches
pub mod Flushing
pub mod Delivery
pub mod Progress
