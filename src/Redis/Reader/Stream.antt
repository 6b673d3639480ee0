-- ===== src/Redis/Reader/Stream.antt =====
-- What the buffered reader reads is what the connection delivers, however it is cut into chunks.
use samaritan.Prelude.{
  ℕ, ◌+◌, ◌-◌, ◌<◌, ◌≤◌, ◌≡◌, ◌≢◌, refl, sym, ap, subst, ◌∙◌, inl, inr, none, some, [], ◌∷◌, ◌++◌,
  append_assoc, Bytes, length, length-append, drop, ◌==◌, Bool-cases, Option-cases, arith,
}
use samaritan.Redis.Reader.Defs.{IoReader, Reader, cut, fill, peek_byte, read_byte}

pub cut-append_some :
    (d : ℕ) (p q : Bytes) {x y : Bytes} → cut d p ≡ some (x, y) → cut d (p ++ q) ≡ some (x, y ++ q)
unfolding cut
cut-append_some d [] q h = cc
cut-append_some d (c ∷ cs) q {x} {y} h = elim (Option-cases (cut d cs)) [
  | inl e ↦ ground arith
  | inr ((x', y'), e) ↦ ground (arith, cut-append_some d cs q {x = x'} {y = y'} e)
]

-- The other way round, the delimiter stands in what follows.
pub cut-append_none :
    (d : ℕ) (p q : Bytes) {x y : Bytes}
    → cut d (p ++ q) ≡ some (x, y)
    → cut d p ≡ none
    → (u : Bytes) × (cut d q ≡ some (u, y)) × (x ≡ p ++ u)
unfolding cut
cut-append_none d [] q {x} h k = (x, h, refl)
cut-append_none d (c ∷ cs) q {x} {y} h k = elim (Option-cases (cut d (cs ++ q))) [
  | inl e ↦ absurd (ground arith)
  | inr ((x', y'), e) ↦
      let (u, e₁, e₂) = cut-append_none d cs q {x = x'} {y = y'} e (ground arith) in
      (u, ground arith, ground arith)
]

pub append-cut : (d : ℕ) (p : Bytes) {x y : Bytes} → cut d p ≡ some (x, y) → x ++ y ≡ p
unfolding cut
append-cut d [] h = cc
append-cut d (c ∷ cs) {x} {y} h = elim (Option-cases (cut d cs)) [
  | inl e ↦ ground arith
  | inr ((x', y'), e) ↦ ground (arith, append-cut d cs {x = x'} {y = y'} e)
]

pub length-cut :
    (d : ℕ) (p : Bytes) {x y : Bytes}
    → cut d p ≡ some (x, y)
    → (length x + length y ≡ length p) × (0 < length x)
unfolding cut
length-cut d [] h = cc
length-cut d (c ∷ cs) {x} {y} h = elim (Option-cases (cut d cs)) [
  | inl e ↦ ground arith
  | inr ((x', y'), e) ↦ ground (arith, length-cut d cs {x = x'} {y = y'} e)
]

module _ (io : IoReader) where
  -- The reader has met no error, and `input` is what is still to be read from it.
  pub record Delivers (b : Reader io) (input : Bytes) : Type 0 where
    pub healthy : b.err ≡ none
    pub flows : b.pending ++ io.content b.rd ≡ input
    pub fits : length b.pending ≤ b.cap
    pub room : 0 < b.cap

  -- Filling a buffer that has room keeps the input and adds to the buffer.
  pub record Filled (b b' : Reader io) (input : Bytes) : Type 0 where
    pub again : Delivers b' input
    pub more : length b.pending < length b'.pending
    pub same_cap : b'.cap ≡ b.cap

  pub length-append_bytes : (xs ys : Bytes) → length (xs ++ ys) ≡ length xs + length ys
  length-append_bytes = length-append

  fill_chunk :
      (b : Reader io) (chunk : Bytes) (s' : io.State)
      → b.err ≡ none
      → io.read (b.cap - length b.pending) b.rd ≡ (chunk, none, s')
      → 0 < length chunk
      → fill io b ≡ record b { pending = b.pending ++ chunk; rd = s' }
  unfolding fill
  fill_chunk b chunk s' h e lt = ground arith

  pub fill_lem :
      (b : Reader io) (input : Bytes)
      → Delivers b input
      → length b.pending < b.cap
      → io.content b.rd ≢ []
      → Filled b (fill io b) input
  fill_lem b input d lt ne =
      let (chunk, s', e, pos_len, le_len, c) =
        io.read_some (b.cap - length b.pending) b.rd (omega arith) ne in
      rw (fill_chunk b chunk s' d.healthy e pos_len) (record {
        again = record {
          healthy = d.healthy;
          flows = append_assoc b.pending chunk _ ∙ ap (◌++◌ b.pending) (sym c) ∙ d.flows;
          fits = omega (arith, length-append_bytes b.pending chunk);
          room = d.room;
        };
        more = omega (arith, length-append_bytes b.pending chunk);
        same_cap = refl;
      })

  -- A byte at the front of the input is found in the buffer, at once or after a fill.
  record Buffered (b b' : Reader io) (c : ℕ) (rest : Bytes) : Type 0 where
    tail : Bytes
    front : b'.pending ≡ c ∷ tail
    flow : tail ++ io.content b'.rd ≡ rest
    delivers : Delivers b' (c ∷ rest)
    same_cap : b'.cap ≡ b.cap

  cons-eq : (x y : ℕ) (xs ys : Bytes) → x ∷ xs ≡ y ∷ ys → (x ≡ y) × (xs ≡ ys)
  cons-eq x y xs ys h = (cc, cc)

  Buffered-of_pending :
      (b b' : Reader io) (c : ℕ) (rest : Bytes)
      → Delivers b' (c ∷ rest)
      → 0 < length b'.pending
      → b'.cap ≡ b.cap
      → Buffered b b' c rest
  Buffered-of_pending b b' c rest d lt e = go b'.pending refl
    where
      go : (p : Bytes) → b'.pending ≡ p → Buffered b b' c rest
      go [] q = absurd (omega (arith, ap length q))
      go (x ∷ xs) q =
          let (same, flow) =
            cons-eq x c (xs ++ io.content b'.rd) rest
              (subst (λ p. p ++ io.content b'.rd ≡ c ∷ rest) q d.flows) in
          record {
            tail = xs;
            front = q ∙ ap (λ z. z ∷ xs) same;
            flow = flow;
            delivers = d;
            same_cap = e;
          }

  not_empty : (c : ℕ) (p q rest : Bytes) → p ++ q ≡ c ∷ rest → length p ≡ 0 → q ≢ []
  not_empty c [] q rest h e = cc
  not_empty c (x ∷ p) q rest h e = absurd (omega arith)

  peek_byte_lem :
      (b : Reader io) (c : ℕ) (rest : Bytes)
      → Delivers b (c ∷ rest)
      → (b' : Reader io) × (peek_byte io b ≡ (some c, none, b')) × Buffered b b' c rest
  unfolding peek_byte
  peek_byte_lem b c rest d = elim (Bool-cases (length b.pending == 0)) [
    | inl e ↦
        let f =
          fill_lem b (c ∷ rest) d (ground arith)
            (not_empty c b.pending _ rest d.flows (ground arith)) in
        let w =
          Buffered-of_pending b (fill io b) c rest f.again (omega (arith, f.more)) f.same_cap in
        (fill io b, ground (arith, w.front), w)
    | inr e ↦
        let w = Buffered-of_pending b b c rest d (ground arith) refl in
        (b, ground (arith, w.front), w)
  ]

  -- The fields of a reader after one byte is taken out of its buffer.
  Delivers-advance :
      (b b' : Reader io) (c : ℕ) (rest : Bytes)
      → Buffered b b' c rest
      → Delivers (record b' { pending = drop 1 b'.pending }) rest
  Delivers-advance b b' c rest w = rw w.front (record {
    healthy = w.delivers.healthy;
    flows = w.flow;
    fits = omega (arith, w.delivers, ap length w.front);
    room = w.delivers.room;
  })

  pub peek_byte-Delivers :
      (b : Reader io) (c : ℕ) (rest : Bytes)
      → Delivers b (c ∷ rest)
      → (b' : Reader io) × (peek_byte io b ≡ (some c, none, b'))
        × Delivers b' (c ∷ rest)
        × (b'.cap ≡ b.cap)
  peek_byte-Delivers b c rest d =
      let (b', e, w) = peek_byte_lem b c rest d in (b', e, w.delivers, w.same_cap)

  pub read_byte-Delivers :
      (b : Reader io) (c : ℕ) (rest : Bytes)
      → Delivers b (c ∷ rest)
      → (b' : Reader io) × (read_byte io b ≡ (some c, none, b'))
        × Delivers b' rest
        × (b'.cap ≡ b.cap)
  unfolding read_byte
  read_byte-Delivers b c rest d =
      let (b', e, w) = peek_byte_lem b c rest d in
      (record b' { pending = drop 1 b'.pending }, rw e, Delivers-advance b b' c rest w, w.same_cap)
