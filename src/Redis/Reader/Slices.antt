-- ===== src/Redis/Reader/Slices.antt =====
-- ReadSlice and ReadBytes on a connection that delivers a delimiter.
use samaritan.Prelude.{
  ℕ, zero, suc, ◌+◌, ◌<◌, ◌≡◌, ◌≢◌, refl, sym, ap, subst, ◌∙◌, ◌⊎◌, inl, inr, Option, none, some,
  [], ◌++◌, append_assoc, Bytes, length, length-append, ◌==◌, Bool-cases, Option-cases, arith,
}
use samaritan.Redis.Errors.{Error, buffer_full}
use samaritan.Redis.Reader.Defs.{
  IoReader, Reader, cut, fill, read_slice_loop, read_slice, read_bytes_loop, read_bytes,
}
use samaritan.Redis.Reader.Stream.{
  cut-append_some, cut-append_none, append-cut, length-cut, Delivers, Filled, fill_lem,
}

module _ (io : IoReader) (d : ℕ) where
  abbrev pub Outcome : Type 0
  Outcome = Bytes × Option Error × Reader io

  -- The line was read.
  abbrev pub Line : ℕ → Bytes → Bytes → Outcome → Type 0
  Line cap x y r = (b' : Reader io) × (r ≡ (x, none, b')) × Delivers io b' y × (b'.cap ≡ cap)

  -- The buffer filled up inside the line.
  abbrev Fragment : ℕ → Bytes → Bytes → Outcome → Type 0
  Fragment cap x y r =
      (frag : Bytes) × (rest : Bytes) × (b' : Reader io) × (r ≡ (frag, some buffer_full, b'))
      × (x ≡ frag ++ rest)
      × (length frag ≡ cap)
      × (cut d (rest ++ y) ≡ some (rest, y))
      × Delivers io b' (rest ++ y)
      × (b'.cap ≡ cap)

  cut-nil : {x y : Bytes} → cut d [] ≡ some (x, y) → ⊥
  unfolding cut
  cut-nil h = cc

  pair_eq :
      {x x' y y' : Bytes}
      → ◌≡◌ {A = Option (Bytes × Bytes)} (some (x, y)) (some (x', y'))
      → (x ≡ x') × (y ≡ y')
  pair_eq h = (cc, cc)

  slice_ends :
      (f : ℕ) (b : Reader io) (input x y x' y' : Bytes)
      → Delivers io b input
      → cut d input ≡ some (x, y)
      → cut d b.pending ≡ some (x', y')
      → Line b.cap x y (read_slice_loop io (suc f) d b)
  unfolding read_slice_loop
  slice_ends f b input x y x' y' dl h e =
      let (same, rest) =
        pair_eq (sym (cut-append_some d b.pending (io.content b.rd) e) ∙ ap (cut d) dl.flows ∙ h) in
      (
        record b { pending = y' },
        ground (arith, e),
        record {
          healthy = dl.healthy;
          flows = rest;
          fits = omega (arith, dl.fits, (length-cut d b.pending e).0);
          room = dl.room;
        },
        refl,
      )

  slice_full :
      (f : ℕ) (b : Reader io) (input x y : Bytes)
      → Delivers io b input
      → cut d input ≡ some (x, y)
      → cut d b.pending ≡ none
      → length b.pending ≡ b.cap
      → Fragment b.cap x y (read_slice_loop io (suc f) d b)
  unfolding read_slice_loop
  slice_full f b input x y dl h e l =
      let (u, k, s) = cut-append_none d b.pending (io.content b.rd) (ap (cut d) dl.flows ∙ h) e in
      let back = append-cut d (io.content b.rd) k in
      (
        b.pending,
        u,
        record b { pending = [] },
        ground (arith, e),
        s,
        l,
        ap (cut d) back ∙ k,
        record { healthy = dl.healthy; flows = sym back; fits = omega arith; room = dl.room },
        refl,
      )

  -- A round of the loop that does not end it.
  slice_next :
      (f : ℕ) (b : Reader io) (input x y : Bytes)
      → Delivers io b input
      → cut d input ≡ some (x, y)
      → cut d b.pending ≡ none
      → length b.pending ≢ b.cap
      → (read_slice_loop io (suc f) d b ≡ read_slice_loop io f d (fill io b))
        × Filled io b (fill io b) input
  unfolding read_slice_loop
  slice_next f b input x y dl h e l =
      let (u, k, s) = cut-append_none d b.pending (io.content b.rd) (ap (cut d) dl.flows ∙ h) e in
      let fl =
        fill_lem io b input dl (omega (arith, dl.fits)) (λ z. cut-nil (ap (cut d) (sym z) ∙ k)) in
      (ground (arith, e, fl.again.healthy), fl)

  read_slice_loop_lem :
      (f : ℕ) (b : Reader io) (input x y : Bytes)
      → Delivers io b input
      → cut d input ≡ some (x, y)
      → b.cap < f + length b.pending
      → Line b.cap x y (read_slice_loop io f d b) ⊎ Fragment b.cap x y (read_slice_loop io f d b)
  read_slice_loop_lem zero b input x y dl h lt = absurd (omega (arith, dl.fits))
  read_slice_loop_lem (suc f) b input x y dl h lt = elim (Option-cases (cut d b.pending)) [
    | inr ((x', y'), e) ↦ inl (slice_ends f b input x y x' y' dl h e)
    | inl e ↦ elim (Bool-cases (length b.pending == b.cap)) [
      | inl l ↦ inr (slice_full f b input x y dl h e (ground arith))
      | inr l ↦
          let (step, fl) = slice_next f b input x y dl h e (ground arith) in
          let ih = read_slice_loop_lem f (fill io b) input x y fl.again h (omega (arith, fl)) in
          rw step (
            subst
              (λ c.
                Line c x y (read_slice_loop io f d (fill io b))
                ⊎ Fragment c x y (read_slice_loop io f d (fill io b)))
              fl.same_cap ih)
    ]
  ]

  pub read_slice_lem :
      (b : Reader io) (input x y : Bytes)
      → Delivers io b input
      → cut d input ≡ some (x, y)
      → Line b.cap x y (read_slice io d b) ⊎ Fragment b.cap x y (read_slice io d b)
  unfolding read_slice
  read_slice_lem b input x y dl h =
      let lem = read_slice_loop_lem (suc b.cap) b input x y dl h (omega arith) in
      let open_ : read_slice io d b ≡ read_slice_loop io (suc b.cap) d b =
        ground (arith, dl.healthy) in
      rw open_ lem

  -- ReadSlice on a line that fits into the buffer.
  pub read_slice-Line :
      (b : Reader io) (input x y : Bytes)
      → Delivers io b input
      → cut d input ≡ some (x, y)
      → length x < b.cap
      → Line b.cap x y (read_slice io d b)
  read_slice-Line b input x y dl h lt = elim (read_slice_lem b input x y dl h) [
    | inl l ↦ l
    | inr (frag, rest, b', e, s, l, k, dl', c) ↦
        absurd (omega (arith, ap length s, length-append {0} frag rest))
  ]

  -- ReadBytes puts the fragments of a long line together.
  read_bytes_loop_lem :
      (f : ℕ) (full : Bytes) (b : Reader io) (input x y : Bytes)
      → Delivers io b input
      → cut d input ≡ some (x, y)
      → length x < f
      → Line b.cap (full ++ x) y (read_bytes_loop io f d full b)
  unfolding read_bytes_loop
  read_bytes_loop_lem zero full b input x y dl h lt = absurd (omega arith)
  read_bytes_loop_lem (suc f) full b input x y dl h lt = elim (read_slice_lem b input x y dl h) [
    | inl (b', e, dl', c) ↦ (b', ground (arith, e), dl', c)
    | inr (frag, rest, b', e, s, l, k, dl', c) ↦
        let shorter : length rest < f =
          omega (arith, dl.room, ap length s, length-append {0} frag rest) in
        let (b'', e'', dl'', c'') =
          read_bytes_loop_lem f (full ++ frag) b' (rest ++ y) rest y dl' k shorter in
        (b'', ground (arith, e, e'', s, append_assoc full frag rest), dl'', c'' ∙ c)
  ]

  pub read_bytes-Line :
      (f : ℕ) (b : Reader io) (input x y : Bytes)
      → Delivers io b input
      → cut d input ≡ some (x, y)
      → length x < f
      → Line b.cap x y (read_bytes io f d b)
  unfolding read_bytes
  read_bytes-Line f b input x y dl h lt = read_bytes_loop_lem f [] b input x y dl h lt
