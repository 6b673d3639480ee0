-- ===== src/Host.antt =====
-- host/host.go: backend hosts, their health and counters, and the set of hosts of a service with its
-- cache of the healthy ones. A *Host is a number, at which a heap holds the host; a map from addresses
-- to hosts holds such numbers. A call under the set's lock is one step. The map's order, which Go
-- leaves open, is that of the association list; no result here depends on it.
pub mod Defs
pub mod Steps
pub mod Sorted
pub mod Cache
pub mod Marks
mod Tests
