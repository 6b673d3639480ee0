-- ===== src/Redis/Compress/Defs.antt =====
-- The compression filter.
use samaritan.Prelude.{
  ℕ, zero, suc, ◌≡◌, Bool, true, false, Option, none, some, List, [], ◌∷◌, ◌++◌, Bytes, bytes,
  bytes_equal, length, take, drop, get_or, ltb, leb, ◌==◌, ◌||◌, if◌then◌else◌, crlf, ◌⊎◌, inl, inr,
}
use samaritan.Redis.Resp.{
  simple_string, error, integer, bulk_string, array, other, RespValue, resp_value, RespArray,
  slice_nil, slice_of, RespList, nil, cons, new_error,
}

-- What compressor.NewWriter writes of a value, and what compressor.NewReader reads; `none` is an error.
pub record Compressor : Type 0 where
  pub write : Bytes → Option Bytes
  pub read : Bytes → Option Bytes

-- A value that was written is read back.
pub record IsCompressor (c : Compressor) : Type 0 where
  pub read_written : (x y : Bytes) → c.write x ≡ some y → c.read y ≡ some x

abbrev pub cps_magic_number : Bytes
cps_magic_number = bytes "(P$"

abbrev pub cps_hdr_len : ℕ
cps_hdr_len = 6

-- The registered compressors by the number of the algorithm: SNAPPY alone, which is 0.
abbrev pub algorithm_of : Compressor → ℕ → Option Compressor
algorithm_of c zero = some c
algorithm_of c (suc n) = none

abbrev pub header : ℕ → Bytes
header algorithm = cps_magic_number ++ algorithm ∷ crlf

pub data CpsError : Type 0 where
  missing_cps_hdr missing_cps_magic_number invalid_cps_algorithm unsupported_cps_algorithm :
      CpsError
  read_failed : CpsError

-- The shorter of the value and its compressed form behind the header.
abbrev pub shorter : Bytes → Bytes → Bytes
shorter b src = if leb (length src) (length b) then src else b

unfoldable pub compress : Compressor → ℕ → Bytes → Bytes
compress c algorithm src = elim (algorithm_of c algorithm) [
  | none ↦ src
  | some w ↦ elim (w.write src) [ none ↦ src | some y ↦ shorter (header algorithm ++ y) src ]
]

abbrev pub read_or_fail : Option Bytes → CpsError ⊎ Bytes
read_or_fail none = inl read_failed
read_or_fail (some x) = inr x

unfoldable pub decompress : Compressor → Bytes → CpsError ⊎ Bytes
decompress c src =
    if ltb (length src) cps_hdr_len
    then inl missing_cps_hdr
    else if bytes_equal cps_magic_number (take 3 src)
    then (if get_or src 3 0 == 0
        then read_or_fail (c.read (drop cps_hdr_len src))
        else inl invalid_cps_algorithm)
    else inl missing_cps_magic_number

abbrev pub restored : CpsError ⊎ Bytes → Bytes → Bytes
restored (inl e) src = src
restored (inr d) src = d

-- A nil text is too short to have a header.
unfoldable pub restore : Compressor → Option Bytes → Option Bytes
restore c none = none
restore c (some t) = some (restored (decompress c t) t)

-- Decompress, on a response and on the elements of an array.
unfoldable mutual
  pub decompress_resp : Compressor → RespValue → RespValue
  decompress_resp c (resp_value integer i x a) = resp_value integer i x a
  decompress_resp c (resp_value error i x a) = resp_value error i x a
  decompress_resp c (resp_value array i x a) = resp_value array i x (decompress_array c a)
  decompress_resp c (resp_value simple_string i x a) = resp_value simple_string i (restore c x) a
  decompress_resp c (resp_value bulk_string i x a) = resp_value bulk_string i (restore c x) a
  decompress_resp c (resp_value (other b) i x a) = resp_value (other b) i (restore c x) a

  pub decompress_array : Compressor → RespArray → RespArray
  decompress_array c slice_nil = slice_nil
  decompress_array c (slice_of l) = slice_of (decompress_items c l)

  pub decompress_items : Compressor → RespList → RespList
  decompress_items c nil = nil
  decompress_items c (cons v l) = cons (decompress_resp c v) (decompress_items c l)

pub record Compression : Type 0 where
  pub enable : Bool
  pub algorithm : ℕ
  pub threshold : ℕ

-- A text that is not below the threshold is compressed.
unfoldable pub compress_text : Compressor → Compression → Option Bytes → Option Bytes
compress_text c cfg none = none
compress_text c cfg (some t) =
    if ltb (length t) cfg.threshold then some t else some (compress c cfg.algorithm t)

abbrev pub compress_value : Compressor → Compression → RespValue → RespValue
compress_value c cfg (resp_value t i x a) = resp_value t i (compress_text c cfg x) a

-- The loop of Compress: every second element from the offset on.
unfoldable pub compress_from : Compressor → Compression → ℕ → RespList → RespList
compress_from c cfg n nil = nil
compress_from c cfg zero (cons v l) = cons (compress_value c cfg v) (compress_from c cfg 1 l)
compress_from c cfg (suc n) (cons v l) = cons v (compress_from c cfg n l)

abbrev any_of : List Bytes → Bytes → Bool
any_of [] cmd = false
any_of (c ∷ cs) cmd = bytes_equal c cmd || any_of cs cmd

-- The offset of the first value, for the commands that are compressed.
unfoldable pub offset_of : Bytes → Option ℕ
offset_of cmd =
    if any_of (bytes "set" ∷ bytes "getset" ∷ bytes "setnx" ∷ []) cmd
    then some 2
    else if any_of
        (bytes "hset" ∷ bytes "hmset" ∷ bytes "hsetnx" ∷ bytes "psetex" ∷ bytes "setex" ∷ []) cmd
    then some 3
    else none

abbrev compress_args : Compressor → Compression → Option ℕ → RespList → RespList
compress_args c cfg none l = l
compress_args c cfg (some n) l = compress_from c cfg n l

unfoldable pub compress_body : Compressor → Compression → Bytes → RespList → RespList
compress_body c cfg cmd l = compress_args c cfg (offset_of cmd) l

-- The commands that are refused while compression is enabled, and those whose responses are never
-- decompressed.
abbrev pub banned : List Bytes
banned =
    bytes "append"
    ∷ bytes "eval"
    ∷ bytes "setbit"
    ∷ bytes "getbit"
    ∷ bytes "setrange"
    ∷ bytes "getrange"
    ∷ []

abbrev pub skipped : List Bytes
skipped =
    bytes "incr"
    ∷ bytes "decr"
    ∷ bytes "incrby"
    ∷ bytes "decrby"
    ∷ bytes "hkeys"
    ∷ bytes "hincrby"
    ∷ bytes "hincrbyfloat"
    ∷ bytes "lpop"
    ∷ bytes "lpush"
    ∷ bytes "rpop"
    ∷ bytes "rpush"
    ∷ bytes "lrange"
    ∷ bytes "lindex"
    ∷ bytes "spop"
    ∷ bytes "sunion"
    ∷ bytes "smembers"
    ∷ bytes "zadd"
    ∷ bytes "zrange"
    ∷ bytes "zcard"
    ∷ bytes "zrangebyscore"
    ∷ bytes "cluster"
    ∷ bytes "ping"
    ∷ []

-- What Do decides: whether the response will be decompressed, and the body to go on with or the
-- response that stops the request.
pub record Decision : Type 0 where
  pub decompresses : Bool
  pub goes_on : RespValue ⊎ RespList

unfoldable pub do_filter : Compressor → Option Compression → Bytes → RespList → Decision
unfolding compress_body
do_filter c none cmd body = record { decompresses = false; goes_on = inr body }
do_filter c (some cfg) cmd body = record {
  decompresses = if any_of skipped cmd then false else true;
  goes_on =
      if cfg.enable
      then (if any_of banned cmd
          then inl
              (new_error (bytes "ERR command '" ++ (cmd ++ bytes "' is disabled in compress mode")))
          else inr (compress_body c cfg cmd body))
      else inr body;
}
