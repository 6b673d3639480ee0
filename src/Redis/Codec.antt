-- ===== src/Redis/Codec.antt =====
-- proc/redis/codec.go: the RESP decoder over the buffered reader, and the encoder over a buffered
-- writer. The decoder's recursion and loops take fuel; twice the bytes on the wire and one more are
-- enough.
pub mod Btoi
pub mod Itoa
pub mod Decode
pub mod Encode
pub mod Written
pub mod Reliable
pub mod Reads
pub mod RoundTrip
pub mod Memory
pub mod Inverse
mod Tests
