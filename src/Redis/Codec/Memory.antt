-- ===== src/Redis/Codec/Memory.antt =====
-- A writer into memory, which reports no error.
use samaritan.Prelude.{◌≡◌, Option, none, ◌++◌, Bytes}
use samaritan.Redis.Errors.{Error}
use samaritan.Redis.Codec.Encode.{BufWriter}

pub memory_adds :
    (b s s' : Bytes) → ◌≡◌ {A = Option Error × Bytes} (none, s ++ b) (none, s') → s' ≡ s ++ b
memory_adds b s s' h = cc

abbrev pub memory_writer : BufWriter
memory_writer = record {
  State = Bytes;
  write = λ b s. (none, s ++ b);
  flush = λ s. (none, s);
  written = λ s. s;
  write_adds = memory_adds;
}
