-- ===== src/Redis/Reader.antt =====
-- proc/redis/bufio.go: the buffered reader. `pending` is buf[r:w] and `cap` is len(buf); `fill` moves
-- the pending bytes to the front, so the room that it reads into is `cap` less the pending bytes
-- whatever `r` is. What a call returns is fresh or consumed before the next call, so slices are values.
mod Defs
mod Stream
mod Slices
mod Full
mod Memory
pub use Defs.*
unfoldable pub use Defs.{
  cut, new_reader_size, fill, peek_byte, read_byte, read_slice_loop, read_slice, read_bytes_loop,
  read_bytes, read, read_full_loop, read_full,
}
pub use Stream.{Delivers, peek_byte-Delivers, read_byte-Delivers}
pub use Slices.{read_slice-Line, read_bytes-Line}
pub use Full.{read_full-Delivers}
pub use Memory.{memory, memory_reader, memory_reader-Delivers}
