-- ===== src/Redis/Codec/Written.antt =====
-- An encoder that reports no error has written the value's bytes on the wire.
use samaritan.Prelude.{
  ℕ, ◌≡◌, sym, ap, ◌∙◌, inl, inr, none, some, [], ◌∷◌, ◌++◌, append_assoc, append-nil, Bytes,
  length, crlf, ℤ, pos, negsuc, Option-cases, arith,
}
use samaritan.Strconv.{format_int}
use samaritan.Redis.Errors.{bad_resp_type}
use samaritan.Redis.Resp.{
  simple_string, error, integer, bulk_string, array, other, RespValue, resp_value, RespArray,
  slice_nil, slice_of, RespList, nil, cons, length_list, bytes_of,
}
use samaritan.Redis.Codec.Itoa.{itoa, itoa-eq-format_int}
use samaritan.Redis.Codec.Encode.{
  BufWriter, Write, ◌>>◌, encode_text_bytes, encode_int, encode_bulk_bytes, encode, encode_array,
  encode_items, line, wire, wire_array, wire_items,
}

module _ (bw : BufWriter) where
  -- When the call reports no error it has added `b`.
  abbrev Adds : Write bw → Bytes → Type 0
  Adds m b = (s s' : bw.State) → m s ≡ (none, s') → bw.written s' ≡ bw.written s ++ b

  Adds->> : (m k : Write bw) (b c : Bytes) → Adds m b → Adds k c → Adds (◌>>◌ bw m k) (b ++ c)
  Adds->> m k b c hm hk s s' h = elim (Option-cases (m s).0) [
    | inl e ↦
        hk (m s).1 s' (ground (arith, e))
        ∙ ap (λ w. w ++ c) (hm s (m s).1 (ground (arith, e)))
        ∙ append_assoc (bw.written s) b c
    | inr (x, e) ↦ absurd (ground (arith, e))
  ]

  Adds-line : (b : Bytes) → Adds (encode_text_bytes bw b) (line b)
  unfolding encode_text_bytes
  Adds-line b = Adds->> (bw.write b) (bw.write crlf) b crlf (bw.write_adds b) (bw.write_adds crlf)

  Adds-int : (i : ℤ) → Adds (encode_int bw i) (line (format_int i))
  unfolding encode_int
  Adds-int i = rw (← itoa-eq-format_int i) (Adds-line (itoa i))

  Adds-type :
      (c : ℕ) (k : Write bw) (b : Bytes) → Adds k b → Adds (◌>>◌ bw (bw.write (c ∷ [])) k) (c ∷ b)
  Adds-type c k b h = Adds->> (bw.write (c ∷ [])) k (c ∷ []) b (bw.write_adds (c ∷ [])) h

  failing :
      (m : Write bw) (s s' : bw.State) → ◌>>◌ bw m (λ t. (some bad_resp_type, t)) s ≡ (none, s') → ⊥
  failing m s s' h = ground arith

  mutual
    unfolding encode wire encode_bulk_bytes

    Adds-encode : (v : RespValue) → Adds (encode bw v) (wire v)
    Adds-encode (resp_value simple_string i x a) = Adds-type b'+' _ _ (Adds-line (bytes_of x))
    Adds-encode (resp_value error i x a) = Adds-type b'-' _ _ (Adds-line (bytes_of x))
    Adds-encode (resp_value integer i x a) = Adds-type b':' _ _ (Adds-int i)
    Adds-encode (resp_value bulk_string i none a) = Adds-type b'$' _ _ (Adds-int (negsuc 0))
    Adds-encode (resp_value bulk_string i (some b) a) =
        Adds-type b'$' _ _ (Adds->> _ _ _ _ (Adds-int (pos (length b))) (Adds-line b))
    Adds-encode (resp_value array i x a) = Adds-type b'*' _ _ (Adds-array a)
    Adds-encode (resp_value (other b) i x a) = λ s s' h. absurd (failing (bw.write (b ∷ [])) s s' h)

    Adds-array : (a : RespArray) → Adds (encode_array bw a) (wire_array a)
    Adds-array slice_nil = Adds-int (negsuc 0)
    Adds-array (slice_of l) = Adds->> _ _ _ _ (Adds-int (pos (length_list l))) (Adds-items l)

    Adds-items : (l : RespList) → Adds (encode_items bw l) (wire_items l)
    Adds-items nil = λ s s' h. ap bw.written (cc h) ∙ sym (append-nil (bw.written s))
    Adds-items (cons v l) = Adds->> _ _ _ _ (Adds-encode v) (Adds-items l)

  -- If Encode reports no error, exactly the value's bytes on the wire are added to the output.
  pub encode-written :
      (v : RespValue) (s s' : bw.State)
      → encode bw v s ≡ (none, s')
      → bw.written s' ≡ bw.written s ++ wire v
  encode-written v = Adds-encode v
