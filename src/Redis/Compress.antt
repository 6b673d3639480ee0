-- ===== src/Redis/Compress.antt =====
-- proc/redis/filter_compress.go: values compressed on their way to Redis and back. The compressor, a
-- third-party library, is a parameter.
pub mod Defs
pub mod Values
mod Tests
