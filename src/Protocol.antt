-- ===== src/Protocol.antt =====
-- pkg/protocol.
pub mod LowEntropy
pub mod Metadata
pub mod Scheduler
pub mod Segment
pub mod Underlay
pub mod Session
pub mod ServerUser
pub mod Output
pub mod Padding
