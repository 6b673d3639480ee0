-- ===== src/Redis/Codec/Reads.antt =====
-- Rules for decoders that read a value off the front of the input and leave the rest.
use samaritan.Prelude.{
  ℕ, ◌+◌, ◌<◌, ◌≤◌, ◌≡◌, refl, ◌∙◌, Option, some, [], ◌∷◌, ◌++◌, Bytes, All, length, length-append,
  lf, crlf, arith, ℤ, IsInt64,
}
use samaritan.Strconv.{
  format_int, parse_int-format_int, length-format_int-le, format_int-IsPlain, IsPlain,
}
use samaritan.Redis.Errors.{ok, bad_crlf_end, num_error}
use samaritan.Redis.Reader
use samaritan.Redis.Reader.{IoReader, Reader, Delivers, cut}
use samaritan.Redis.Codec.Btoi.{btoi64-eq-parse_int}
use samaritan.Redis.Codec.Encode.{line}
use samaritan.Redis.Codec.Decode.{
  M, ◌>>=◌, lift, lift_byte, lift_option, pure, strip_crlf, decode_int, decode_text_bytes,
}

strip_crlf-line : (b : Bytes) → strip_crlf (line b) ≡ some b
unfolding strip_crlf
strip_crlf-line [] = refl
strip_crlf-line (c ∷ []) = refl
strip_crlf-line (c ∷ d ∷ []) = refl
strip_crlf-line (c ∷ d ∷ e ∷ r) = rw (strip_crlf-line (d ∷ e ∷ r))

-- A line ends at its CRLF.
cut-line : (b rest : Bytes) → All IsPlain b → cut lf (line b ++ rest) ≡ some (line b, rest)
unfolding cut
cut-line [] rest h = refl
cut-line (c ∷ b) rest h = ground (arith, cut-line b rest h.1)

module _ (io : IoReader) where
  -- From any reader that delivers `input`, `m` returns `a` and leaves a reader that delivers
  -- `rest`. The buffer holds at least the longest integer and its CRLF.
  abbrev pub Reads : {A : Type 0} → M io A → Bytes → A → Bytes → Type 0
  Reads {A} m input a rest =
      (b : Reader io)
      → 24 ≤ b.cap
      → Delivers io b input
      → (b' : Reader io) × (m b ≡ ok (a, b')) × Delivers io b' rest × (b'.cap ≡ b.cap)

  pub Reads-bind :
      {A B : Type 0} (m : M io A) (f : A → M io B) (a : A) (c : B) {input mid rest : Bytes}
      → Reads m input a mid
      → Reads (f a) mid c rest
      → Reads (◌>>=◌ io m f) input c rest
  Reads-bind m f a c hm hf b big d =
      let (b₁, e₁, d₁, c₁) = hm b big d in
      let (b₂, e₂, d₂, c₂) = hf b₁ (omega arith) d₁ in (b₂, ground (arith, e₁, e₂), d₂, c₂ ∙ c₁)

  pub Reads-pure : {A : Type 0} (a : A) (rest : Bytes) → Reads (pure io a) rest a rest
  Reads-pure a rest b big d = (b, refl, d, refl)

  pub Reads-read_byte :
      (c : ℕ) (rest : Bytes) → Reads (lift_byte io (Reader.read_byte io)) (c ∷ rest) c rest
  Reads-read_byte c rest b big d =
      let (b', e, d', k) = Reader.read_byte-Delivers io b c rest d in (b', ground (arith, e), d', k)

  pub Reads-peek_byte :
      (c : ℕ) (rest : Bytes) → Reads (lift_byte io (Reader.peek_byte io)) (c ∷ rest) c (c ∷ rest)
  Reads-peek_byte c rest b big d =
      let (b', e, d', k) = Reader.peek_byte-Delivers io b c rest d in (b', ground (arith, e), d', k)

  Reads-read_slice :
      (x rest : Bytes)
      → cut lf (x ++ rest) ≡ some (x, rest)
      → length x < 24
      → Reads (lift io (Reader.read_slice io lf)) (x ++ rest) x rest
  Reads-read_slice x rest h lt b big d =
      let (b', e, d', k) = Reader.read_slice-Line io lf b (x ++ rest) x rest d h (omega arith) in
      (b', ground (arith, e), d', k)

  Reads-read_bytes :
      (f : ℕ) (x rest : Bytes)
      → cut lf (x ++ rest) ≡ some (x, rest)
      → length x < f
      → Reads (lift io (Reader.read_bytes io f lf)) (x ++ rest) x rest
  Reads-read_bytes f x rest h lt b big d =
      let (b', e, d', k) = Reader.read_bytes-Line io lf f b (x ++ rest) x rest d h lt in
      (b', ground (arith, e), d', k)

  pub Reads-read_full :
      (x rest : Bytes)
      → 0 < length x
      → Reads (lift io (Reader.read_full io (length x))) (x ++ rest) x rest
  Reads-read_full x rest lt b big d =
      let (b', e, d', k) = Reader.read_full-Delivers io b x rest d lt in
      (b', ground (arith, e), d', k)

  Reads-lift_option :
      {A : Type 0} (e : _) (o : Option A) (a : A) (rest : Bytes)
      → o ≡ some a
      → Reads (lift_option io e o) rest a rest
  Reads-lift_option e o a rest h b big d = (b, rw h, d, refl)

  length-line : (b : Bytes) → length (line b) ≡ length b + 2
  length-line b = length-append b crlf

  -- decodeInt reads an integer as FormatInt prints it.
  pub Reads-decode_int :
      (i : ℤ) (rest : Bytes)
      → IsInt64 i
      → Reads (decode_int io) (line (format_int i) ++ rest) i rest
  unfolding decode_int
  Reads-decode_int i rest h =
      Reads-bind _ _ (line (format_int i)) i
        (Reads-read_slice (line (format_int i)) rest
          (cut-line (format_int i) rest (format_int-IsPlain i))
          (omega (arith, length-line (format_int i), length-format_int-le i h)))
        (Reads-bind _ _ (format_int i) i
          (Reads-lift_option bad_crlf_end _ (format_int i) rest (strip_crlf-line (format_int i)))
          (Reads-lift_option num_error _ i rest
            (btoi64-eq-parse_int (format_int i) ∙ parse_int-format_int i h)))

  -- decodeTextBytes reads a line.
  pub Reads-decode_text_bytes :
      (f : ℕ) (x rest : Bytes)
      → All IsPlain x
      → length x + 2 < f
      → Reads (decode_text_bytes io f) (line x ++ rest) x rest
  unfolding decode_text_bytes
  Reads-decode_text_bytes f x rest h lt =
      Reads-bind _ _ (line x) x
        (Reads-read_bytes f (line x) rest (cut-line x rest h) (omega (arith, length-line x)))
        (Reads-lift_option bad_crlf_end _ x rest (strip_crlf-line x))
