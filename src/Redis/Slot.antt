-- ===== src/Redis/Slot.antt =====
-- proc/redis/util.go: the hash of a key, its hashtag, and the slot that chooseHost of
-- proc/redis/upstream.go looks up.
pub mod Crc
pub mod Hashtag
pub mod Tags
pub mod Table
pub mod Bits
mod Tests
