-- ===== src/Redis/Codec/Decode.antt =====
-- The decoder of proc/redis/codec.go. Each call of decode, of the loop over the elements and of
-- ReadBytes takes fuel. A reader that is left behind by an error is dropped: Decode keeps the error
-- and never reads again.
use samaritan.Prelude.{
  ℕ, zero, suc, ◌+◌, ◌*◌, true, false, Option, none, some, List, [], ◌∷◌, ◌++◌, map, Bytes, take,
  get_or, ◌==◌, ltb, if◌then◌else◌, cr, lf, ℤ, pos, negsuc,
}
use samaritan.Redis.Errors.{
  Error, bad_crlf_end, bad_array_len, bad_array_len_too_long, bad_bulk_string_len, bad_resp_type,
  eof, bad_bulk_string_len_too_long, bad_multi_bulk_len, num_error, out_of_fuel, Result, ok, fail,
  bind,
}
use samaritan.Redis.Resp.{
  RespType, simple_string, error, integer, bulk_string, array, other, RespValue, resp_value,
  RespArray, slice_nil, slice_of, RespList, nil, cons, new_bulk_string, new_array,
}
use samaritan.Redis.Reader
use samaritan.Redis.Reader.{IoReader, Reader}
use samaritan.Redis.Codec.Btoi.{btoi64}

abbrev pub max_array_len : ℕ
max_array_len = 1024 * 1024

abbrev pub max_bulk_string_len : ℕ
max_bulk_string_len = 1024 * 1024 * 512

-- `b[:n]` for n two below the length, if `b[n]` is CR.
unfoldable pub strip_crlf : Bytes → Option Bytes
strip_crlf [] = none
strip_crlf (c ∷ []) = none
strip_crlf (c ∷ d ∷ []) = if c == cr then some [] else none
strip_crlf (c ∷ d ∷ e ∷ r) = elim (strip_crlf (d ∷ e ∷ r)) [ none ↦ none | some s ↦ some (c ∷ s) ]

-- The type of a value by its first byte; other bytes begin an inline command.
unfoldable pub type_of : ℕ → Option RespType
type_of c =
    if c == b':'
    then some integer
    else if c == b'+'
    then some simple_string
    else if c == b'-'
    then some error
    else if c == b'$'
    then some bulk_string
    else if c == b'*'
    then some array
    else none

abbrev pub emit_word : Bytes → List Bytes → List Bytes
emit_word [] ws = ws
emit_word (c ∷ cs) ws = (c ∷ cs) ∷ ws

-- The loop of decodeInline: the words between spaces, of which `word` is the one being read.
unfoldable pub split_inline : Bytes → Bytes → List Bytes
split_inline word [] = emit_word word []
split_inline word (c ∷ cs) = elim (c == b' ') [
  | true ↦ emit_word word (split_inline [] cs)
  | false ↦ split_inline (word ++ c ∷ []) cs
]

module _ (io : IoReader) where
  abbrev pub M : Type 0 → Type 0
  M A = Reader io → Result (A × Reader io)

  infixl 5 ◌>>=◌ ◌>>◌
  abbrev pub ◌>>=◌ : {A B : Type 0} → M A → (A → M B) → M B
  ◌>>=◌ m f b = bind (m b) λ (a, b'). f a b'

  abbrev pub ◌>>◌ : {B : Type 0} → M (Unit {0}) → M B → M B
  m >> k = m >>= λ _. k

  abbrev pub pure : {A : Type 0} → A → M A
  pure a b = ok (a, b)

  abbrev pub throw : {A : Type 0} → Error → M A
  throw e b = fail e

  -- A call of the reader, with its error.
  abbrev pub lift : (Reader io → Bytes × Option Error × Reader io) → M Bytes
  lift f b = let (x, e, b') = f b in elim e [ none ↦ ok (x, b') | some e' ↦ fail e' ]

  abbrev pub lift_byte : (Reader io → Option ℕ × Option Error × Reader io) → M ℕ
  lift_byte f b =
      let (c, e, b') = f b in
      elim c [ none ↦ fail (elim e [ none ↦ eof | some e' ↦ e' ]) | some c' ↦ ok (c', b') ]

  abbrev pub lift_option : {A : Type 0} → Error → Option A → M A
  lift_option e o b = elim o [ none ↦ fail e | some a ↦ ok (a, b) ]

  unfoldable pub decode_int : M ℤ
  decode_int = do
    b ← lift (Reader.read_slice io lf)
    s ← lift_option bad_crlf_end (strip_crlf b)
    lift_option num_error (btoi64 s)

  unfoldable pub decode_text_bytes : ℕ → M Bytes
  decode_text_bytes f = do
    b ← lift (Reader.read_bytes io f lf)
    lift_option bad_crlf_end (strip_crlf b)

  -- The n bytes of a bulk string and the CRLF behind them.
  abbrev pub bulk_body : ℕ → Bytes → M (Option Bytes)
  bulk_body n b =
      if get_or b n 0 == cr
      then (if get_or b (n + 1) 0 == lf then pure (some (take n b)) else throw bad_crlf_end)
      else throw bad_crlf_end

  unfoldable pub bulk_of_len : ℤ → M (Option Bytes)
  bulk_of_len (negsuc zero) = pure none
  bulk_of_len (negsuc (suc n)) = throw bad_bulk_string_len
  bulk_of_len (pos n) =
      if ltb max_bulk_string_len n
      then throw bad_bulk_string_len_too_long
      else (do b ← lift (Reader.read_full io (n + 2)); bulk_body n b)

  unfoldable pub decode_bulk_string : M (Option Bytes)
  decode_bulk_string = decode_int >>= bulk_of_len

  abbrev pub inline_value : List Bytes → M RespValue
  inline_value [] = throw bad_multi_bulk_len
  inline_value (w ∷ ws) = pure (new_array (map new_bulk_string (w ∷ ws)))

  unfoldable pub decode_inline : ℕ → M RespValue
  decode_inline f = do b ← decode_text_bytes f; inline_value (split_inline [] b)

  -- The elements of an array of the given length, by a loop that decodes them.
  unfoldable pub array_of_len : (ℕ → M RespList) → ℤ → M RespArray
  array_of_len items (negsuc zero) = pure slice_nil
  array_of_len items (negsuc (suc n)) = throw bad_array_len
  array_of_len items (pos n) =
      if ltb max_array_len n
      then throw bad_array_len_too_long
      else (do l ← items n; pure (slice_of l))

  -- decodeResp, behind the type byte. The loop over an array's elements is a parameter.
  unfoldable pub decode_resp : ℕ → (ℕ → M RespList) → RespType → M RespValue
  decode_resp f items integer = do i ← decode_int; pure (resp_value integer i none slice_nil)
  decode_resp f items simple_string = do
    x ← decode_text_bytes f
    pure (resp_value simple_string (pos 0) (some x) slice_nil)
  decode_resp f items error = do
    x ← decode_text_bytes f
    pure (resp_value error (pos 0) (some x) slice_nil)
  decode_resp f items bulk_string = do
    x ← decode_bulk_string
    pure (resp_value bulk_string (pos 0) x slice_nil)
  decode_resp f items array = do
    a ← decode_int >>= array_of_len items
    pure (resp_value array (pos 0) none a)
  decode_resp f items (other b) = throw bad_resp_type

  -- Behind the byte that PeekByte shows.
  unfoldable pub decode_by : ℕ → (ℕ → M RespList) → Option RespType → M RespValue
  decode_by f items none = decode_inline f
  decode_by f items (some t) = do _ ← lift_byte (Reader.read_byte io); decode_resp f items t

  unfoldable mutual
    pub decode : ℕ → M RespValue
    decode zero = throw out_of_fuel
    decode (suc f) = do
      c ← lift_byte (Reader.peek_byte io)
      decode_by f (λ n. decode_items f n) (type_of c)

    -- The loop of decodeArray over the elements.
    pub decode_items : ℕ → ℕ → M RespList
    decode_items zero n = throw out_of_fuel
    decode_items (suc f) n = elim n [
      | zero ↦ pure nil
      | suc k ↦ do v ← decode f; l ← decode_items f k; pure (cons v l)
    ]

  pub record Decoder : Type 0 where
    pub br : Reader io
    pub err : Option Error

  -- Decode; after an error every call returns that error.
  unfoldable pub decode_value : ℕ → Decoder → Result RespValue × Decoder
  decode_value f d = elim d.err [
    | some e ↦ (fail e, d)
    | none ↦ elim (decode f d.br) [
      | ok (v, br') ↦ (ok v, record d { br = br' })
      | fail e ↦ (fail e, record d { err = some e })
    ]
  ]
