-- ===== src/Monitor.antt =====
-- proc/internal/hc/monitor.go: the health monitor. The outcome of a check is an input; the workers of
-- checkHosts take each host once, so a round is a sequence of outcomes.
pub mod Defs
pub mod Thresholds
mod Tests
