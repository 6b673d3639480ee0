-- ===== src/Redis/Codec/Encode.antt =====
-- The encoder of proc/redis/codec.go, over the bufio.Writer that it fills.
use samaritan.Prelude.{◌≡◌, Option, none, some, [], ◌∷◌, ◌++◌, Bytes, length, crlf, ℤ, pos, negsuc}
use samaritan.Strconv.{format_int}
use samaritan.Redis.Errors.{Error, bad_resp_type}
use samaritan.Redis.Resp.{
  simple_string, error, integer, bulk_string, array, other, RespValue, resp_value, RespArray,
  slice_nil, slice_of, RespList, nil, cons, type_byte, length_list, bytes_of,
}
use samaritan.Redis.Codec.Itoa.{itoa}

-- The buffered writer: any writer where a write that reports no error has added its bytes to what
-- is buffered or sent.
pub record BufWriter : Type 1 where
  pub State : Type 0
  pub write : Bytes → State → Option Error × State
  pub flush : State → Option Error × State
  pub written : State → Bytes
  pub write_adds : (b : Bytes) (s s' : State) → write b s ≡ (none, s') → written s' ≡ written s ++ b

module _ (bw : BufWriter) where
  abbrev pub Write : Type 0
  Write = bw.State → Option Error × bw.State

  infixl 5 ◌>>◌
  -- The next write is made if the one before reported no error.
  abbrev pub ◌>>◌ : Write → Write → Write
  ◌>>◌ m k s = let (e, s') = m s in elim e [ none ↦ k s' | some e' ↦ (some e', s') ]

  unfoldable pub encode_text_bytes : Bytes → Write
  encode_text_bytes b = bw.write b >> bw.write crlf

  unfoldable pub encode_int : ℤ → Write
  unfolding encode_text_bytes
  encode_int i = encode_text_bytes (itoa i)

  unfoldable pub encode_bulk_bytes : Option Bytes → Write
  unfolding encode_int
  encode_bulk_bytes none = encode_int (negsuc 0)
  encode_bulk_bytes (some b) = encode_int (pos (length b)) >> encode_text_bytes b

  unfoldable mutual
    pub encode : RespValue → Write
    encode (resp_value simple_string i x a) =
        bw.write (type_byte simple_string ∷ []) >> encode_text_bytes (bytes_of x)
    encode (resp_value error i x a) =
        bw.write (type_byte error ∷ []) >> encode_text_bytes (bytes_of x)
    encode (resp_value integer i x a) = bw.write (type_byte integer ∷ []) >> encode_int i
    encode (resp_value bulk_string i x a) =
        bw.write (type_byte bulk_string ∷ []) >> encode_bulk_bytes x
    encode (resp_value array i x a) = bw.write (type_byte array ∷ []) >> encode_array a
    encode (resp_value (other b) i x a) = bw.write (b ∷ []) >> λ s. (some bad_resp_type, s)

    pub encode_array : RespArray → Write
    encode_array slice_nil = encode_int (negsuc 0)
    encode_array (slice_of l) = encode_int (pos (length_list l)) >> encode_items l

    pub encode_items : RespList → Write
    encode_items nil s = (none, s)
    encode_items (cons v l) s = (encode v >> encode_items l) s

  pub record Encoder : Type 0 where
    pub out : bw.State
    pub err : Option Error

  -- Encode; after an error every call returns that error.
  unfoldable pub encode_value : RespValue → Encoder → Option Error × Encoder
  encode_value v e = elim e.err [
    | some x ↦ (some x, e)
    | none ↦ let (r, s) = encode v e.out in (r, record { out = s; err = r })
  ]

  unfoldable pub flush : Encoder → Option Error × Encoder
  flush e = elim e.err [
    | some x ↦ (some x, e)
    | none ↦ let (r, s) = bw.flush e.out in (r, record { out = s; err = r })
  ]

-- The bytes of a value on the wire, by the protocol: an independent description of the encoder.
abbrev pub line : Bytes → Bytes
line b = b ++ crlf

unfoldable mutual
  pub wire : RespValue → Bytes
  wire (resp_value simple_string i x a) = b'+' ∷ line (bytes_of x)
  wire (resp_value error i x a) = b'-' ∷ line (bytes_of x)
  wire (resp_value integer i x a) = b':' ∷ line (format_int i)
  wire (resp_value bulk_string i none a) = b'$' ∷ line (format_int (negsuc 0))
  wire (resp_value bulk_string i (some b) a) = b'$' ∷ (line (format_int (pos (length b))) ++ line b)
  wire (resp_value array i x a) = b'*' ∷ wire_array a
  wire (resp_value (other b) i x a) = []

  pub wire_array : RespArray → Bytes
  wire_array slice_nil = line (format_int (negsuc 0))
  wire_array (slice_of l) = line (format_int (pos (length_list l))) ++ wire_items l

  pub wire_items : RespList → Bytes
  wire_items nil = []
  wire_items (cons v l) = wire v ++ wire_items l
