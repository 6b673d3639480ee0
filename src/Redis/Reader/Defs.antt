-- ===== src/Redis/Reader/Defs.antt =====
-- The buffered reader of proc/redis/bufio.go over an io.Reader.
use samaritan.Prelude.{
  ℕ, zero, suc, ◌-◌, ◌<◌, ◌≤◌, ◌≡◌, ◌≢◌, Bool, true, false, Option, none, some, [], ◌∷◌, ◌++◌,
  Bytes, length, take, drop, ◌==◌, leb, if◌then◌else◌,
}
use samaritan.Redis.Errors.{Error, no_progress, buffer_full, eof, unexpected_eof, out_of_fuel}

-- The connection that the reader reads from: any io.Reader. `content` is what the peer sends before
-- it closes. A read of a positive size returns at least one byte while there are any, and an error
-- after that.
pub record IoReader : Type 1 where
  pub State : Type 0
  pub read : ℕ → State → Bytes × Option Error × State
  pub content : State → Bytes
  pub read_some :
      (n : ℕ) (s : State)
      → 0 < n
      → content s ≢ []
      → (chunk : Bytes) × (s' : State) × (read n s ≡ (chunk, none, s'))
        × (0 < length chunk)
        × (length chunk ≤ n)
        × (content s ≡ chunk ++ content s')
  pub read_end :
      (n : ℕ) (s : State)
      → 0 < n
      → content s ≡ []
      → (e : Error) × (s' : State) × (read n s ≡ ([], some e, s'))

-- Splits behind the first delimiter: bytes.IndexByte and the two slices.
unfoldable pub cut : ℕ → Bytes → Option (Bytes × Bytes)
cut d [] = none
cut d (c ∷ cs) =
    if c == d
    then some (c ∷ [], cs)
    else elim (cut d cs) [ none ↦ none | some (x, y) ↦ some (c ∷ x, y) ]

abbrev pub is_buffer_full : Error → Bool
is_buffer_full buffer_full = true
is_buffer_full _ = false

-- The error of io.ReadAtLeast, after the bytes `got`.
abbrev pub full_error : Bytes → Error → Error
full_error (c ∷ cs) eof = unexpected_eof
full_error _ e = e

module _ (io : IoReader) where
  pub record Reader : Type 0 where
    pub pending : Bytes
    pub cap : ℕ
    pub err : Option Error
    pub rd : io.State

  unfoldable pub new_reader_size : io.State → ℕ → Reader
  new_reader_size rd size = record {
    pending = [];
    cap = if leb size 0 then 4096 else size;
    err = none;
    rd = rd;
  }

  unfoldable pub fill : Reader → Reader
  fill b = elim b.err [
    | some e ↦ b
    | none ↦
        let (chunk, e, rd') = io.read (b.cap - length b.pending) b.rd in
        elim e [
          | some e' ↦ record b { err = some e'; rd = rd' }
          | none ↦
              if length chunk == 0
              then record b { err = some no_progress; rd = rd' }
              else record b { pending = b.pending ++ chunk; rd = rd' }
        ]
  ]

  -- The byte that PeekByte finds, once the buffer is not empty.
  abbrev pub first : Reader → Option ℕ × Option Error × Reader
  first b = elim b.pending [ [] ↦ (none, b.err, b) | c ∷ cs ↦ (some c, none, b) ]

  -- With an empty buffer fill has set `err`, or there is a byte.
  unfoldable pub peek_byte : Reader → Option ℕ × Option Error × Reader
  peek_byte b = elim b.err [
    | some e ↦ (none, some e, b)
    | none ↦ if length b.pending == 0 then first (fill b) else first b
  ]

  abbrev pub advance : Option ℕ × Option Error × Reader → Option ℕ × Option Error × Reader
  advance (c, e, b) = elim c [
    | none ↦ (none, e, b)
    | some c' ↦ (some c', e, record b { pending = drop 1 b.pending })
  ]

  unfoldable pub read_byte : Reader → Option ℕ × Option Error × Reader
  read_byte b = advance (peek_byte b)

  -- The loop of ReadSlice. A round that does not end it adds a byte to the buffer.
  unfoldable pub read_slice_loop : ℕ → ℕ → Reader → Bytes × Option Error × Reader
  read_slice_loop zero delim b = ([], some out_of_fuel, b)
  read_slice_loop (suc f) delim b = elim (cut delim b.pending) [
    | some (x, y) ↦ (x, none, record b { pending = y })
    | none ↦
        if length b.pending == b.cap
        then (b.pending, some buffer_full, record b { pending = [] })
        else elim ((fill b).err) [
          | some e ↦ ([], some e, fill b)
          | none ↦ read_slice_loop f delim (fill b)
        ]
  ]

  unfoldable pub read_slice : ℕ → Reader → Bytes × Option Error × Reader
  read_slice delim b = elim b.err [
    | some e ↦ ([], some e, b)
    | none ↦ read_slice_loop (suc b.cap) delim b
  ]

  -- The loop of ReadBytes; `full` holds the fragments read so far.
  unfoldable pub read_bytes_loop : ℕ → ℕ → Bytes → Reader → Bytes × Option Error × Reader
  read_bytes_loop zero delim full b = ([], some out_of_fuel, b)
  read_bytes_loop (suc f) delim full b =
      let (frag, e, b') = read_slice delim b in
      elim e [
        | none ↦ (full ++ frag, none, b')
        | some e' ↦
            let more = read_bytes_loop f delim (full ++ frag) b' in
            if is_buffer_full e' then more else ([], some e', b')
      ]

  unfoldable pub read_bytes : ℕ → ℕ → Reader → Bytes × Option Error × Reader
  read_bytes f delim b = read_bytes_loop f delim [] b

  abbrev pub copy_out : ℕ → Reader → Bytes × Option Error × Reader
  copy_out n b = (take n b.pending, none, record b { pending = drop n b.pending })

  abbrev pub read_direct : ℕ → Reader → Bytes × Option Error × Reader
  read_direct n b =
      let (chunk, e, rd') = io.read n b.rd in (chunk, e, record b { err = e; rd = rd' })

  abbrev pub read_filled : ℕ → Reader → Bytes × Option Error × Reader
  read_filled n b = elim b.err [ some e ↦ ([], some e, b) | none ↦ copy_out n b ]

  -- Read into a slice of length n.
  unfoldable pub read : ℕ → Reader → Bytes × Option Error × Reader
  read n b = elim b.err [
    | some e ↦ ([], some e, b)
    | none ↦
        if n == 0
        then ([], none, b)
        else if length b.pending == 0
        then (if leb b.cap n then read_direct n b else read_filled n (fill b))
        else copy_out n b
  ]

  -- io.ReadFull of n bytes, of which `got` are read: at the end of the input in the middle its
  -- error is another one.
  unfoldable pub read_full_loop : ℕ → ℕ → Bytes → Reader → Bytes × Option Error × Reader
  read_full_loop zero n got b = (got, some out_of_fuel, b)
  read_full_loop (suc f) n got b =
      let (chunk, e, b') = read (n - length got) b in
      let all = got ++ chunk in
      let more = read_full_loop f n all b' in
      if leb n (length all)
      then (all, none, b')
      else elim e [ none ↦ more | some e' ↦ (all, some (full_error all e'), b') ]

  -- A round of the loop reads at least a byte.
  unfoldable pub read_full : ℕ → Reader → Bytes × Option Error × Reader
  read_full n b = elim b.err [
    | some e ↦ ([], some e, b)
    | none ↦ if n == 0 then ([], none, b) else read_full_loop n n [] b
  ]
