-- ===== src/Redis/Upstream.antt =====
-- The upstream of proc/redis/upstream.go: the slots and how they choose a host, the clients by their
-- addresses, redirections, and the refresh of the slots.
pub mod Route
pub mod Targets
pub mod Slots
pub mod Refresh
pub mod Clients
pub mod Hosts
pub mod Single
pub mod Connected
mod Tests
