-- ===== src/Redis/HotKey.antt =====
-- proc/redis/hotkey: the keys that a host's requests name most often.
pub mod Counter
pub mod Chain
pub mod Lfu
pub mod Collector
pub mod Sorted
mod Tests
