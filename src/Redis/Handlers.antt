-- ===== src/Redis/Handlers.antt =====
-- proc/redis/handler.go and handleRequest of proc/redis/redis.go: what the proxy does with a request.
pub mod Table
pub mod Defs
pub mod Outcomes
pub mod Sent
mod Tests
