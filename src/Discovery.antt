-- ===== src/Discovery.antt =====
-- config/discovery.go: the subscriptions of a discovery client.
pub mod Defs
pub mod Balance
pub mod Starve
pub mod Settle
mod Tests
