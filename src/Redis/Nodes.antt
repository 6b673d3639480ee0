-- ===== src/Redis/Nodes.antt =====
-- proc/redis/slot.go: the parser of the answer to CLUSTER NODES.
pub mod Segments
pub mod Ranges
pub mod Cluster
mod Tests
