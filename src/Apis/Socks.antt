-- ===== src/Apis/Socks.antt =====
-- apis/model: SOCKS5 addresses (addr.go) and messages (socks.go) on the wire.
pub mod Addr
pub mod Message
pub mod Examples
