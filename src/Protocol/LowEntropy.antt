-- ===== src/Protocol/LowEntropy.antt =====
-- pkg/protocol/low_entropy.go.
pub mod Params
