-- ===== src/Redis/Codec/RoundTrip.antt =====
-- What the encoder puts on the wire, the decoder reads back.
use samaritan.Prelude.{
  ℕ, zero, suc, ◌+◌, ◌*◌, ◌<◌, ◌≤◌, ◌≡◌, refl, sym, subst, false, ltb, none, some, [], ◌∷◌, ◌++◌,
  append_assoc, Bytes, All, length, length-append, take-length-append, get_or, cr, lf, crlf, arith,
  pos, negsuc, IsInt64,
}
use samaritan.Strconv.{format_int, IsPlain}
use samaritan.Redis.Errors.{ok}
use samaritan.Redis.Resp.{
  RespType, simple_string, error, integer, bulk_string, array, other, RespValue, resp_value,
  slice_nil, slice_of, RespList, nil, cons, length_list,
}
use samaritan.Redis.Reader.{IoReader, Reader, Delivers}
use samaritan.Redis.Codec.Encode.{line, wire, wire_items}
use samaritan.Redis.Codec.Decode.{
  pure, max_array_len, max_bulk_string_len, type_of, bulk_of_len, bulk_body, decode_bulk_string,
  array_of_len, decode_resp, decode_by, decode, decode_items,
}
use samaritan.Redis.Codec.Reads.{
  Reads, Reads-bind, Reads-pure, Reads-read_byte, Reads-peek_byte, Reads-read_full,
  Reads-decode_int, Reads-decode_text_bytes,
}

-- The values that have one spelling on the wire: only the field of the type is set, an integer fits
-- into 64 bits, a line has no line feed, and the lengths are within the decoder's limits.
abbrev mutual
  pub IsWire : RespValue → Type 0
  IsWire (resp_value simple_string (pos zero) (some x) slice_nil) = All IsPlain x
  IsWire (resp_value error (pos zero) (some x) slice_nil) = All IsPlain x
  IsWire (resp_value integer i none slice_nil) = IsInt64 i
  IsWire (resp_value bulk_string (pos zero) none slice_nil) = Unit
  IsWire (resp_value bulk_string (pos zero) (some x) slice_nil) = length x ≤ max_bulk_string_len
  IsWire (resp_value array (pos zero) none slice_nil) = Unit
  IsWire (resp_value array (pos zero) none (slice_of l)) =
      (length_list l ≤ max_array_len) × IsWireList l
  IsWire _ = ⊥

  pub IsWireList : RespList → Type 0
  IsWireList nil = Unit
  IsWireList (cons v l) = IsWire v × IsWireList l

pub length-line : (b : Bytes) → length (line b) ≡ length b + 2
length-line b = length-append b crlf

get_or-line :
    (x : Bytes) → (get_or (line x) (length x) 0 ≡ cr) × (get_or (line x) (suc (length x)) 0 ≡ lf)
get_or-line [] = (refl, refl)
get_or-line (c ∷ x) = get_or-line x

length-wire_pos : (v : RespValue) → IsWire v → 0 < length (wire v)
unfolding wire
length-wire_pos (resp_value bulk_string i none a) w = omega arith
length-wire_pos (resp_value bulk_string i (some x) a) w = omega arith
length-wire_pos (resp_value (other b) i x a) w = elim w [ ]
length-wire_pos _ w = omega arith

length-append_bytes : (xs ys : Bytes) → length (xs ++ ys) ≡ length xs + length ys
length-append_bytes = length-append

ruleset lengths = (arith, length-append_bytes, length-line)

module _ (io : IoReader) where
  Reads-bulk_body :
      (x rest : Bytes) → Reads io (bulk_body io (length x) (line x)) rest (some x) rest
  Reads-bulk_body x rest =
      subst (λ m. Reads io m rest (some x) rest) (sym same) (Reads-pure io (some x) rest)
    where
      same : bulk_body io (length x) (line x) ≡ pure io (some x)
      same = ground (arith, (get_or-line x).0, (get_or-line x).1, take-length-append x crlf)

  Reads-bulk_of_len :
      (x rest : Bytes)
      → length x ≤ max_bulk_string_len
      → Reads io (bulk_of_len io (pos (length x))) (line x ++ rest) (some x) rest
  unfolding bulk_of_len
  Reads-bulk_of_len x rest h =
      let fits : ltb max_bulk_string_len (length x) ≡ false = ground arith in
      rw (fits, ← length-line x)
        (Reads-bind io _ _ (line x) (some x) (Reads-read_full io (line x) rest (omega lengths))
          (Reads-bulk_body x rest))

  Reads-bulk_string :
      (x rest : Bytes)
      → length x ≤ max_bulk_string_len
      → Reads io
          (decode_bulk_string io)
          (line (format_int (pos (length x))) ++ (line x ++ rest))
          (some x)
          rest
  unfolding decode_bulk_string
  Reads-bulk_string x rest h =
      Reads-bind io _ _ (pos (length x)) (some x)
        (Reads-decode_int io (pos (length x)) (line x ++ rest) (omega arith))
        (Reads-bulk_of_len x rest h)

  Reads-null :
      (rest : Bytes)
      → Reads io (decode_bulk_string io) (line (format_int (negsuc 0)) ++ rest) none rest
  unfolding decode_bulk_string bulk_of_len
  Reads-null rest =
      Reads-bind io _ _ (negsuc 0) none (Reads-decode_int io (negsuc 0) rest (omega arith))
        (Reads-pure io none rest)

  -- A value behind its type byte.
  Reads-typed :
      (f c : ℕ) (t : RespType) (v : RespValue) (input rest : Bytes)
      → type_of c ≡ some t
      → Reads io (decode_resp io f (λ n. decode_items io f n) t) input v rest
      → Reads io (decode io (suc f)) (c ∷ input) v rest
  unfolding decode decode_by
  Reads-typed f c t v input rest e h =
      Reads-bind io _ _ c v (Reads-peek_byte io c input)
        (rw e (Reads-bind io _ _ c v (Reads-read_byte io c input) h))

  Reads-array_of_len :
      (f : ℕ) (l : RespList) (rest : Bytes)
      → length_list l ≤ max_array_len
      → Reads io (decode_items io f (length_list l)) (wire_items l ++ rest) l rest
      → Reads io
          (array_of_len io (λ n. decode_items io f n) (pos (length_list l)))
          (wire_items l ++ rest)
          (slice_of l)
          rest
  unfolding array_of_len
  Reads-array_of_len f l rest small h =
      let fits : ltb max_array_len (length_list l) ≡ false = ground arith in
      rw fits (Reads-bind io _ _ l _ h (Reads-pure io _ rest))

  mutual
    unfolding wire decode decode_resp array_of_len type_of

    Reads-decode :
        (v : RespValue)
        → IsWire v
        → (f : ℕ) (rest : Bytes) → 2 * length (wire v) < f
        → Reads io (decode io f) (wire v ++ rest) v rest
    Reads-decode v w zero rest lt = absurd (omega arith)
    Reads-decode (resp_value simple_string (pos zero) (some x) slice_nil) w (suc f) rest lt =
        Reads-typed f b'+' simple_string _ _ rest refl (
          Reads-bind io _ _ x _ (Reads-decode_text_bytes io f x rest w (omega lengths))
            (Reads-pure io _ rest))
    Reads-decode (resp_value error (pos zero) (some x) slice_nil) w (suc f) rest lt =
        Reads-typed f b'-' error _ _ rest refl (
          Reads-bind io _ _ x _ (Reads-decode_text_bytes io f x rest w (omega lengths))
            (Reads-pure io _ rest))
    Reads-decode (resp_value integer i none slice_nil) w (suc f) rest lt =
        Reads-typed f b':' integer _ _ rest refl
          (Reads-bind io _ _ i _ (Reads-decode_int io i rest w) (Reads-pure io _ rest))
    Reads-decode (resp_value bulk_string (pos zero) none slice_nil) w (suc f) rest lt =
        Reads-typed f b'$' bulk_string _ _ rest refl
          (Reads-bind io _ _ none _ (Reads-null rest) (Reads-pure io _ rest))
    Reads-decode (resp_value bulk_string (pos zero) (some x) slice_nil) w (suc f) rest lt =
        rw (append_assoc (line (format_int (pos (length x)))) (line x) rest) (
          Reads-typed f b'$' bulk_string _ _ rest refl
            (Reads-bind io _ _ (some x) _ (Reads-bulk_string x rest w) (Reads-pure io _ rest)))
    Reads-decode (resp_value array (pos zero) none slice_nil) w (suc f) rest lt =
        Reads-typed f b'*' array _ _ rest refl (
          Reads-bind io _ _ slice_nil _
            (Reads-bind io _ _ (negsuc 0) _ (Reads-decode_int io (negsuc 0) rest (omega arith))
              (Reads-pure io _ rest))
            (Reads-pure io _ rest))
    Reads-decode (resp_value array (pos zero) none (slice_of l)) w (suc f) rest lt =
        rw (append_assoc (line (format_int (pos (length_list l)))) (wire_items l) rest) (
          Reads-typed f b'*' array _ _ rest refl (
            Reads-bind io _ _ (slice_of l) _
              (Reads-bind io _ _ (pos (length_list l)) _
                (Reads-decode_int io (pos (length_list l)) (wire_items l ++ rest) (omega arith))
                (Reads-array_of_len f l rest w.0 (Reads-items l w.1 f rest (omega lengths))))
              (Reads-pure io _ rest)))
    Reads-decode _ w (suc f) rest lt = elim w [ ]

    Reads-items :
        (l : RespList)
        → IsWireList l
        → (f : ℕ) (rest : Bytes) → 2 * length (wire_items l) + 1 < f
        → Reads io (decode_items io f (length_list l)) (wire_items l ++ rest) l rest
    Reads-items l w zero rest lt = absurd (omega arith)
    Reads-items nil w (suc f) rest lt = Reads-pure io nil rest
    Reads-items (cons v l) w (suc f) rest lt = rw (append_assoc (wire v) (wire_items l) rest) (
        Reads-bind io _ _ v _ (Reads-decode v w.0 f (wire_items l ++ rest) (omega lengths)) (
          Reads-bind io _ _ l _ (Reads-items l w.1 f rest (omega (lengths, length-wire_pos v w.0)))
            (Reads-pure io _ rest)))

  -- A reader with a buffer of at least 24 bytes that delivers a value's bytes and then `rest`, in
  -- whatever chunks, gives the value with enough fuel, and then delivers `rest`.
  pub decode-wire :
      (v : RespValue) (f : ℕ) (rest : Bytes) (b : Reader io)
      → IsWire v
      → 2 * length (wire v) < f
      → 24 ≤ b.cap
      → Delivers io b (wire v ++ rest)
      → (b' : Reader io) × (decode io f b ≡ ok (v, b')) × Delivers io b' rest × (b'.cap ≡ b.cap)
  decode-wire v f rest b w lt = Reads-decode v w f rest lt b
