-- ===== src/Redis/Codec/Tests.antt =====
-- Runs of the codec, and its theorems at concrete inputs.
use samaritan.Prelude.{
  ap, ℕ, ◌≡◌, refl, none, [], ◌∷◌, ◌++◌, Bytes, bytes, lf, crlf, arith, pos, negsuc,
}
use samaritan.Strconv.{parse_int, format_int}
use samaritan.Redis.Errors.{Result, ok, fail, bad_crlf_end}
use samaritan.Redis.Resp.{
  RespValue, new_integer, new_bulk_string, new_null_bulk_string, new_simple_string, made_array,
}
use samaritan.Redis.Reader
use samaritan.Redis.Reader.{Reader, Delivers, memory, memory_reader, memory_reader-Delivers}
use samaritan.Redis.Codec.Btoi.{btoi64, btoi64-eq-parse_int}
use samaritan.Redis.Codec.Itoa.{itoa, itoa-eq-format_int}
use samaritan.Redis.Codec.Encode.{wire, encode, encode_text_bytes}
use samaritan.Redis.Codec.Decode.{
  decode, decode_int, decode_text_bytes, decode_bulk_string, bulk_of_len, array_of_len, decode_resp,
  decode_by, decode_inline, split_inline, strip_crlf, type_of,
}
use samaritan.Redis.Codec.Memory.{memory_writer}
use samaritan.Redis.Codec.Written.{encode-written}
use samaritan.Redis.Codec.Reliable.{encode-wire}
use samaritan.Redis.Codec.RoundTrip.{decode-wire}
use samaritan.Redis.Codec.Inverse.{decode-encode}

-- *3: a bulk string, a null bulk string and a nested array of an integer and a status.
abbrev sample : RespValue
sample = made_array (
    new_bulk_string (bytes "key")
    ∷ new_null_bulk_string
    ∷ made_array (new_integer (negsuc 41) ∷ new_simple_string (bytes "OK") ∷ [])
    ∷ [])

abbrev sample_wire : Bytes
sample_wire =
    bytes "*3"
    ++ (crlf
        ++ (bytes "$3"
            ++ (crlf
                ++ (bytes "key"
                    ++ (crlf
                        ++ (bytes "$-1"
                            ++ (crlf
                                ++ (bytes "*2"
                                    ++ (crlf
                                        ++ (bytes ":-42"
                                            ++ (crlf ++ (bytes "+OK" ++ crlf))))))))))))

sample_on_wire : wire sample ≡ sample_wire
unfolding wire format_int
sample_on_wire = refl

-- The connection hands out at most two bytes at a time.
abbrev sample_reader : Reader (memory 1)
sample_reader = memory_reader 1 32 (wire sample ++ bytes "PING")

decode-wire_example :
    (b' : Reader (memory 1)) × (decode (memory 1) 200 sample_reader ≡ ok (sample, b'))
    × Delivers (memory 1) b' (bytes "PING")
    × (b'.cap ≡ 32)
unfolding wire format_int
decode-wire_example =
    decode-wire (memory 1) sample 200 (bytes "PING") sample_reader (omega arith) (omega arith)
      (omega arith) (memory_reader-Delivers 1 32 (wire sample ++ bytes "PING") (omega arith))

encode-wire_example :
    ((encode memory_writer sample []).0 ≡ none)
    × ((encode memory_writer sample []).1 ≡ [] ++ wire sample)
encode-wire_example =
    encode-wire memory_writer (λ b s. refl) sample [] (tt, (tt, ((tt, (tt, tt)), tt)))

sample_written :
    ((encode memory_writer sample []).0 ≡ none)
    × ((encode memory_writer sample []).1 ≡ [] ++ wire sample)
sample_written = encode-wire memory_writer (λ b s. refl) sample [] (tt, (tt, ((tt, (tt, tt)), tt)))

decode-encode_example :
    (b' : Reader (memory 1)) × (decode (memory 1) 200 sample_reader ≡ ok (sample, b'))
    × Delivers (memory 1) b' (bytes "PING")
    × (b'.cap ≡ 32)
unfolding wire format_int
decode-encode_example =
    decode-encode (memory 1) memory_writer sample [] (encode memory_writer sample []).1
      (wire sample) (bytes "PING") 200 sample_reader (omega arith)
      (ap (λ e. (e, (encode memory_writer sample []).1)) sample_written.0) sample_written.1
      (omega arith) (omega arith)
      (memory_reader-Delivers 1 32 (wire sample ++ bytes "PING") (omega arith))

btoi64-eq-parse_int_example : btoi64 (bytes "-12x") ≡ parse_int (bytes "-12x")
btoi64-eq-parse_int_example = btoi64-eq-parse_int (bytes "-12x")

itoa-eq-format_int_example : itoa (pos 32768) ≡ format_int (pos 32768)
itoa-eq-format_int_example = itoa-eq-format_int (pos 32768)

encode-written_example :
    [] ++ wire (new_simple_string (bytes "OK")) ≡ [] ++ wire (new_simple_string (bytes "OK"))
unfolding encode encode_text_bytes wire
encode-written_example =
    encode-written memory_writer (new_simple_string (bytes "OK")) []
      ([] ++ wire (new_simple_string (bytes "OK"))) refl

-- An inline command, from a connection that hands out two bytes at a time into a buffer of three.
program : Unit {0}
unfolding Reader.cut Reader.fill Reader.peek_byte Reader.read_byte Reader.read_slice_loop
    Reader.read_slice Reader.read_bytes_loop Reader.read_bytes Reader.read Reader.read_full_loop
    Reader.read_full strip_crlf type_of split_inline decode_int decode_text_bytes decode_bulk_string
    bulk_of_len array_of_len decode_inline decode_resp decode_by decode
program = tt

abbrev decoded : (k size : ℕ) → Bytes → Result RespValue
decoded k size s = elim (decode (memory k) 50 (memory_reader k size s)) [
  | ok (v, b) ↦ ok v
  | fail e ↦ fail e
]

inline_command :
    decoded 1 3 (bytes " GET  a" ++ crlf)
    ≡ ok (made_array (new_bulk_string (bytes "GET") ∷ new_bulk_string (bytes "a") ∷ []))
unfolding program
inline_command = refl

missing_cr : decoded 0 16 (bytes "+OK" ++ lf ∷ []) ≡ fail bad_crlf_end
unfolding program
missing_cr = refl
