-- ===== src/Socks5.antt =====
-- pkg/socks5.
pub mod Egress
