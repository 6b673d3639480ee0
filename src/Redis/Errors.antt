-- ===== src/Redis/Errors.antt =====
-- The errors of the codec (proc/redis/codec.go, proc/redis/bufio.go), and fallible results.
use samaritan.Prelude.{ℕ, Option, none, some}

-- `num_error` is strconv's error. `out_of_fuel` has no counterpart in the program.
pub data Error : Type 0 where
  eof unexpected_eof no_progress buffer_full : Error
  bad_resp_type bad_crlf_end : Error
  bad_array_len bad_array_len_too_long : Error
  bad_bulk_string_len bad_bulk_string_len_too_long : Error
  bad_multi_bulk_len : Error
  num_error : Error
  io_error : ℕ → Error
  out_of_fuel : Error

pub data Result {ℓ} (A : Type ℓ) : Type ℓ where
  ok : A → Result A
  fail : Error → Result A

abbrev pub bind {ℓ κ} : {A : Type ℓ} {B : Type κ} → Result A → (A → Result B) → Result B
bind (ok a) f = f a
bind (fail e) f = fail e

abbrev pub of_option {ℓ} : {A : Type ℓ} → Error → Option A → Result A
of_option e none = fail e
of_option e (some a) = ok a
