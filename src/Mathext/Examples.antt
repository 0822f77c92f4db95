-- ===== src/Mathext/Examples.antt =====
-- Runs of pkg/mathext.
use mieru.Common.{◌+◌, ◌≤◌, ◌≡◌, ◌↔◌, true, arith}
use mieru.Mathext.Numbers.{within_range, within_range_lem}

within_range_example : (within_range 32 11 10 1 ≡ true) ↔ ((10 ≤ 11 + 1) × (11 ≤ 10 + 1))
within_range_example = within_range_lem 11 10 (omega arith) (omega arith)
