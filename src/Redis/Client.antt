-- ===== src/Redis/Client.antt =====
-- The client of proc/redis/upstream.go: one connection to a Redis instance, with a writer, a reader
-- and any number of callers of Send, interleaved in any way.
pub mod Defs
pub mod Order
pub mod Once
pub mod Stop
mod Tests
