-- ===== src/Redis/Reader/Full.antt =====
-- Read and ReadFull on a connection that delivers enough bytes.
use Prim.Native.Nat.{min}
use mathlib.Core.Logic.{inl, inr}
use samaritan.Prelude.{
  ℕ, zero, suc, ◌+◌, ◌-◌, ◌<◌, ◌≤◌, ◌≡◌, ◌≢◌, refl, sym, ap, subst, ◌∙◌, none, [], ◌∷◌, ◌++◌,
  append_assoc, append-nil, Bytes, length, length-take, length-drop, take-append-drop, take, drop,
  ◌==◌, leb, Bool-cases, arith,
}
use samaritan.Redis.Reader.Defs.{
  IoReader, Reader, fill, read, read_full_loop, read_full, copy_out, read_direct,
}
use samaritan.Redis.Reader.Stream.{Delivers, fill_lem, length-append_bytes}

append_split :
    (p q x r : Bytes)
    → p ++ q ≡ x ++ r
    → length p ≤ length x
    → (u : Bytes) × (x ≡ p ++ u) × (q ≡ u ++ r)
append_split [] q x r h le = (x, refl, h)
append_split (c ∷ p) q [] r h le = absurd (omega arith)
append_split (c ∷ p) q (c' ∷ x) r h le =
    let (u, e, e') = append_split p q x r (cc) (omega arith) in (u, cc, e')

module _ (io : IoReader) where
  -- One call of Read: some bytes of the input, at most n.
  record Part (b : Reader io) (n : ℕ) (input : Bytes) : Type 0 where
    chunk : Bytes
    rest : Bytes
    after : Reader io
    result : read io n b ≡ (chunk, none, after)
    some_bytes : 0 < length chunk
    at_most : length chunk ≤ n
    whole : chunk ++ rest ≡ input
    delivers : Delivers io after rest
    same_cap : after.cap ≡ b.cap

  take-length_bytes : (n : ℕ) (xs : Bytes) → length (take n xs) ≡ min n (length xs)
  take-length_bytes = length-take

  drop-length_bytes : (n : ℕ) (xs : Bytes) → length (drop n xs) ≡ length xs - n
  drop-length_bytes = length-drop

  copied :
      (b c : Reader io) (n : ℕ) (input : Bytes)
      → Delivers io c input
      → 0 < length c.pending
      → 0 < n
      → c.cap ≡ b.cap
      → read io n b ≡ copy_out io n c
      → Part b n input
  copied b c n input d lt pos_n e r = record {
    chunk = take n c.pending;
    rest = drop n c.pending ++ io.content c.rd;
    after = record c { pending = drop n c.pending };
    result = r;
    some_bytes = omega (arith, take-length_bytes n c.pending);
    at_most = omega (arith, take-length_bytes n c.pending);
    whole =
        sym (append_assoc (take n c.pending) (drop n c.pending) _)
        ∙ ap (λ p. p ++ io.content c.rd) (take-append-drop n c.pending)
        ∙ d.flows;
    delivers = record {
      healthy = d.healthy;
      flows = refl;
      fits = omega (arith, d.fits, drop-length_bytes n c.pending);
      room = d.room;
    };
    same_cap = e;
  }

  empty : (p : Bytes) → length p ≡ 0 → p ≡ []
  empty [] h = refl
  empty (c ∷ p) h = absurd (omega arith)

  direct :
      (b : Reader io) (n : ℕ) (input : Bytes)
      → Delivers io b input
      → b.pending ≡ []
      → io.content b.rd ≢ []
      → 0 < n
      → read io n b ≡ read_direct io n b
      → Part b n input
  direct b n input d e ne pos_n r =
      let (chunk, s', q, lt, le, c) = io.read_some n b.rd pos_n ne in
      record {
        chunk = chunk;
        rest = io.content s';
        after = record b { err = none; rd = s' };
        result = r ∙ ap (λ (t : _). (t.0, t.1, record b { err = t.1; rd = t.2 })) q;
        some_bytes = lt;
        at_most = le;
        whole = sym c ∙ ap (λ p. p ++ io.content b.rd) (sym e) ∙ d.flows;
        delivers = record {
          healthy = refl;
          flows = ap (λ p. p ++ io.content s') e;
          fits = d.fits;
          room = d.room;
        };
        same_cap = refl;
      }

  read_lem :
      (b : Reader io) (n : ℕ) (input : Bytes)
      → Delivers io b input
      → 0 < n
      → 0 < length input
      → Part b n input
  unfolding read
  read_lem b n input d pos_n lt = elim (Bool-cases (length b.pending == 0)) [
    | inr e ↦ copied b b n input d (ground arith) pos_n refl (ground (arith, d.healthy, e))
    | inl e ↦
        let nothing : b.pending ≡ [] = empty b.pending (ground arith) in
        let ne : io.content b.rd ≢ [] = λ z. absurd (
          omega (
            arith,
            ap length d.flows,
            ap length z,
            ap length nothing,
            length-append_bytes io b.pending (io.content b.rd),
          )) in
        elim (Bool-cases (leb b.cap n)) [
          | inl l ↦ direct b n input d nothing ne pos_n (ground (arith, d.healthy, e, l))
          | inr l ↦
              let fl = fill_lem io b input d (omega (arith, d.room, ap length nothing)) ne in
              copied b (fill io b) n input fl.again (omega (arith, fl.more)) pos_n fl.same_cap
                (ground (arith, d.healthy, fl.again.healthy, e, l))
        ]
  ]

  read_full_loop_lem :
      (f n : ℕ) (got : Bytes) (b : Reader io) (x rest : Bytes)
      → Delivers io b (x ++ rest)
      → length got + length x ≡ n
      → 0 < length x
      → length x ≤ f
      → (b' : Reader io) × (read_full_loop io f n got b ≡ (got ++ x, none, b'))
        × Delivers io b' rest
        × (b'.cap ≡ b.cap)
  unfolding read_full_loop
  read_full_loop_lem zero n got b x rest d e lt le = absurd (omega arith)
  read_full_loop_lem (suc f) n got b x rest d e lt le =
      let p =
        read_lem b (n - length got) (x ++ rest) d (omega arith)
          (omega (arith, length-append_bytes io x rest)) in
      let (u, s, s') = append_split p.chunk p.rest x rest p.whole (omega (arith, p.at_most)) in
      let total = length-append_bytes io got p.chunk in
      let parts = length-append_bytes io p.chunk u in
      let lengths = ap length s in
      elim (Bool-cases (leb n (length (got ++ p.chunk)))) [
        | inl l ↦
            let none_left = empty u (ground (arith, total, parts, lengths)) in
            (
              p.after,
              ground (arith, p.result, l, s, none_left, append-nil p.chunk),
              subst (Delivers io p.after) (s' ∙ ap (λ z. z ++ rest) none_left) p.delivers,
              p.same_cap,
            )
        | inr l ↦
            let (b', r, d', c) =
              read_full_loop_lem f n (got ++ p.chunk) p.after u rest
                (subst (Delivers io p.after) s' p.delivers) (omega (arith, total, parts, lengths))
                (ground (arith, total, parts, lengths))
                (omega (arith, p.some_bytes, parts, lengths)) in
            (b', ground (arith, p.result, l, r, s, append_assoc got p.chunk u), d', c ∙ p.same_cap)
      ]

  -- ReadFull returns the next n bytes.
  pub read_full-Delivers :
      (b : Reader io) (x rest : Bytes)
      → Delivers io b (x ++ rest)
      → 0 < length x
      → (b' : Reader io) × (read_full io (length x) b ≡ (x, none, b'))
        × Delivers io b' rest
        × (b'.cap ≡ b.cap)
  unfolding read_full
  read_full-Delivers b x rest d lt =
      let (b', r, d', c) =
        read_full_loop_lem (length x) (length x) [] b x rest d (omega arith) lt (omega arith) in
      (b', ground (arith, d.healthy, r), d', c)
