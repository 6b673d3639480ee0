-- ===== src/Redis.antt =====
-- proc/redis: the Redis proxy.
pub mod Resp
pub mod Errors
pub mod Reader
pub mod Codec
pub mod Slot
pub mod Request
pub mod Equal
pub mod Client
pub mod Session
pub mod Upstream
pub mod Handlers
pub mod HotKey
pub mod Nodes
pub mod Compress
