-- ===== src/Metrics.antt =====
-- pkg/metrics: the counters and their history.
pub mod Counter
