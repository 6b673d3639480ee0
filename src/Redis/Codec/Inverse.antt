-- ===== src/Redis/Codec/Inverse.antt =====
-- Decode reads back what Encode wrote.
use samaritan.Prelude.{ℕ, ◌*◌, ◌<◌, ◌≤◌, ◌≡◌, sym, subst, ◌∙◌, none, [], ◌∷◌, ◌++◌, Bytes, length}
use samaritan.Redis.Errors.{ok}
use samaritan.Redis.Resp.{RespValue}
use samaritan.Redis.Reader.{IoReader, Reader, Delivers}
use samaritan.Redis.Codec.Encode.{BufWriter, wire, encode}
use samaritan.Redis.Codec.Decode.{decode}
use samaritan.Redis.Codec.Written.{encode-written}
use samaritan.Redis.Codec.RoundTrip.{IsWire, decode-wire}

append_cancel : (xs ys zs : Bytes) → xs ++ ys ≡ xs ++ zs → ys ≡ zs
append_cancel [] ys zs h = h
append_cancel (x ∷ xs) ys zs h = append_cancel xs ys zs (cc h)

-- Whatever Encode added to the output for a value, when it reported no error, Decode reads back as
-- that value, over any writer and from a reader that delivers these bytes and then any rest, in
-- whatever chunks, and the reader then delivers the rest. The reader has a buffer of at least 24
-- bytes, and there is fuel above twice the number of the bytes. The value has only its own type's
-- fields set, 64-bit integers, no line feed in a simple string or an error, and lengths within the
-- decoder's limits.
pub decode-encode :
    (io : IoReader) (bw : BufWriter) (v : RespValue) (s s' : bw.State) (added rest : Bytes) (f : ℕ)
    (b : Reader io)
    → IsWire v
    → encode bw v s ≡ (none, s')
    → bw.written s' ≡ bw.written s ++ added
    → 2 * length added < f
    → 24 ≤ b.cap
    → Delivers io b (added ++ rest)
    → (b' : Reader io) × (decode io f b ≡ ok (v, b')) × Delivers io b' rest × (b'.cap ≡ b.cap)
decode-encode io bw v s s' added rest f b w wrote here lt room d =
    let same : added ≡ wire v =
      append_cancel (bw.written s) added (wire v) (sym here ∙ encode-written bw v s s' wrote) in
    decode-wire io v f rest b w (subst (λ (x : Bytes). 2 * length x < f) same lt) room
      (subst (λ (x : Bytes). Delivers io b (x ++ rest)) same d)
