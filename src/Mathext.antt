-- ===== src/Mathext.antt =====
-- pkg/mathext: generic numbers (numbers.go).
pub mod Numbers
mod Examples
