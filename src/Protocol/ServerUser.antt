-- ===== src/Protocol/ServerUser.antt =====
-- pkg/protocol/serveruser.
pub mod SourceCache
