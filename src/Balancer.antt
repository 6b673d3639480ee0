-- ===== src/Balancer.antt =====
-- proc/internal/lb/lb.go: the load balancers. What rand.Int returns is an argument.
pub mod Defs
pub mod Picks
mod Tests
