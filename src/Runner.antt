-- ===== src/Runner.antt =====
-- pipeline/pipeline_runner.c: the parts of the threaded filter pipeline.
pub mod Packet
pub mod BatchQueue
pub mod PacketQueue
pub mod Stores
pub mod Fifo
pub mod Pending
pub mod Encoder
pub mod Lookup
pub mod Drain
pub mod Arrivals
pub mod Ordered
pub mod Stages
pub mod Topology
pub mod Hardware
pub mod Tests
