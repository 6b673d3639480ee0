-- ===== src/Redis/Codec/Reliable.antt =====
-- Over a writer that reports no error, the encoder reports none for a value whose types are known.
use samaritan.Prelude.{
  ℕ, ◌≡◌, refl, ap, Option, none, some, [], ◌∷◌, ◌++◌, Bytes, length, crlf, ℤ, pos, negsuc, arith,
}
use samaritan.Redis.Resp.{
  simple_string, error, integer, bulk_string, array, other, RespValue, resp_value, slice_nil,
  slice_of, RespList, nil, cons, length_list, bytes_of,
}
use samaritan.Redis.Codec.Itoa.{itoa}
use samaritan.Redis.Codec.Encode.{
  BufWriter, Write, ◌>>◌, encode_text_bytes, encode_int, encode_bulk_bytes, encode, encode_array,
  encode_items, wire,
}
use samaritan.Redis.Codec.Written.{encode-written}

-- No type byte is unknown.
abbrev mutual
  pub IsTyped : RespValue → Type 0
  IsTyped (resp_value (other b) i x a) = ⊥
  IsTyped (resp_value array i x (slice_of l)) = IsTypedList l
  IsTyped _ = Unit

  pub IsTypedList : RespList → Type 0
  IsTypedList nil = Unit
  IsTypedList (cons v l) = IsTyped v × IsTypedList l

module _ (bw : BufWriter) (reliable : (b : Bytes) (s : bw.State) → (bw.write b s).0 ≡ none) where
  abbrev Quiet : Write bw → Type 0
  Quiet m = (s : bw.State) → (m s).0 ≡ none

  Quiet->> : (m k : Write bw) → Quiet m → Quiet k → Quiet (◌>>◌ bw m k)
  Quiet->> m k hm hk s = ground (arith, hm s, hk (m s).1)

  Quiet-line : (b : Bytes) → Quiet (encode_text_bytes bw b)
  unfolding encode_text_bytes
  Quiet-line b = Quiet->> (bw.write b) (bw.write crlf) (reliable b) (reliable crlf)

  Quiet-int : (i : ℤ) → Quiet (encode_int bw i)
  unfolding encode_int
  Quiet-int i = Quiet-line (itoa i)

  Quiet-bulk : (x : Option Bytes) → Quiet (encode_bulk_bytes bw x)
  unfolding encode_bulk_bytes
  Quiet-bulk none = Quiet-int (negsuc 0)
  Quiet-bulk (some b) =
      Quiet->> (encode_int bw (pos (length b))) (encode_text_bytes bw b)
        (Quiet-int (pos (length b))) (Quiet-line b)

  Quiet-type : (c : ℕ) (k : Write bw) → Quiet k → Quiet (◌>>◌ bw (bw.write (c ∷ [])) k)
  Quiet-type c k h = Quiet->> (bw.write (c ∷ [])) k (reliable (c ∷ [])) h

  mutual
    unfolding encode

    Quiet-encode : (v : RespValue) → IsTyped v → Quiet (encode bw v)
    Quiet-encode (resp_value simple_string i x a) t =
        Quiet-type b'+' (encode_text_bytes bw (bytes_of x)) (Quiet-line (bytes_of x))
    Quiet-encode (resp_value error i x a) t =
        Quiet-type b'-' (encode_text_bytes bw (bytes_of x)) (Quiet-line (bytes_of x))
    Quiet-encode (resp_value integer i x a) t = Quiet-type b':' (encode_int bw i) (Quiet-int i)
    Quiet-encode (resp_value bulk_string i x a) t =
        Quiet-type b'$' (encode_bulk_bytes bw x) (Quiet-bulk x)
    Quiet-encode (resp_value array i x slice_nil) t =
        Quiet-type b'*' (encode_int bw (negsuc 0)) (Quiet-int (negsuc 0))
    Quiet-encode (resp_value array i x (slice_of l)) t =
        Quiet-type b'*' (encode_array bw (slice_of l)) (
          Quiet->> (encode_int bw (pos (length_list l))) (encode_items bw l)
            (Quiet-int (pos (length_list l))) (Quiet-items l t))
    Quiet-encode (resp_value (other b) i x a) t = elim t [ ]

    Quiet-items : (l : RespList) → IsTypedList l → Quiet (encode_items bw l)
    Quiet-items nil t = λ s. refl
    Quiet-items (cons v l) t =
        Quiet->> (encode bw v) (encode_items bw l) (Quiet-encode v t.0) (Quiet-items l t.1)

  -- Over a writer whose writes all succeed, Encode reports no error for a value with known types,
  -- and adds exactly its bytes on the wire.
  pub encode-wire :
      (v : RespValue) (s : bw.State)
      → IsTyped v
      → ((encode bw v s).0 ≡ none) × (bw.written (encode bw v s).1 ≡ bw.written s ++ wire v)
  encode-wire v s t =
      let quiet = Quiet-encode v t s in
      (quiet, encode-written bw v s (encode bw v s).1 (ap (λ e. (e, (encode bw v s).1)) quiet))
