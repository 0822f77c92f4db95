-- ===== src/Apis.antt =====
-- apis/: framing of packets on a stream and the SOCKS5 messages.
pub mod PacketOverStream
pub mod Socks
pub mod Examples
