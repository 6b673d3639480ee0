-- ===== src/Redis/Codec/Itoa.antt =====
-- itoa: the integers from -128 to 32768 are cut out of one string that init builds, with a table of
-- offsets; the rest goes to strconv.FormatInt.
use samaritan.Prelude.{
  ℕ, zero, suc, ◌+◌, ◌-◌, ◌*◌, ◌%◌, ◌^◌, ◌<◌, ◌≤◌, ◌≡◌, refl, sym, ap, ◌∙◌, inl, inr, Bool, true,
  false, ◌&&◌, List, [], ◌∷◌, ◌++◌, append_assoc, append-nil, Bytes, length, length-append,
  take-length-append, drop-length-append, get_or-append, get_or-append_last, drop, take, get_or,
  ◌==◌, leb, if◌then◌else◌, Bool-cases, arith, ℤ, pos, negsuc, sub_ℕ, pos_part, neg_part,
}
use samaritan.Strconv.{length-digits-le, format_uint, format_int}

-- minItoa is -128 and maxItoa is 32768.
abbrev pub min_itoa : ℕ
min_itoa = 128

abbrev pub max_itoa : ℕ
max_itoa = 32768

abbrev table_size : ℕ
table_size = 32897

-- The string of the table's entry k, strconv.Itoa(k + minItoa).
unfoldable pub entry : ℕ → Bytes
entry k = format_int (sub_ℕ k min_itoa)

-- The loop of init: itoaOffset and itoaBuffer after n rounds. An offset is a uint32.
unfoldable pub tables : ℕ → List ℕ × Bytes
unfolding entry
tables zero = ([], [])
tables (suc n) =
    let (offsets, buffer) = tables n in
    (offsets ++ (length buffer % 2 ^ 32) ∷ [], buffer ++ entry n)

abbrev slice : Bytes → ℕ → ℕ → Bytes
slice b from to = drop from (take to b)

-- An integer of the range as its index in the table.
abbrev index : ℤ → ℕ
index i = pos_part i + min_itoa - neg_part i

abbrev in_table : ℤ → Bool
in_table i = leb (neg_part i) min_itoa && leb (pos_part i) max_itoa

unfoldable pub itoa : ℤ → Bytes
itoa i =
    if in_table i
    then (let from = get_or (tables table_size).0 (index i) 0 in
        if pos_part i == max_itoa
        then drop from (tables table_size).1
        else slice (tables table_size).1 from (get_or (tables table_size).0 (suc (index i)) 0))
    else format_int i

length-append_bytes : (xs ys : Bytes) → length (xs ++ ys) ≡ length xs + length ys
length-append_bytes = length-append

length-entry-le : (k : ℕ) → k < table_size → length (entry k) ≤ 6
unfolding entry format_int format_uint
length-entry-le k h = ground (
  arith,
  length-digits-le 4 (suc (k - 128)) (k - 128) [],
  length-digits-le 4 (suc (suc (128 - k - 1))) (suc (128 - k - 1)) [],
)

abbrev buffer : ℕ → Bytes
buffer n = (tables n).1

length-buffer-le : (n : ℕ) → n ≤ table_size → length (buffer n) ≤ 6 * n
unfolding tables
length-buffer-le zero h = omega arith
length-buffer-le (suc n) h =
    omega (arith, length-buffer-le n, length-append_bytes (buffer n) (entry n), length-entry-le n)

-- The buffer begins with what it was after each earlier round.
buffer-prefix : (n k : ℕ) → n ≤ k → (rest : Bytes) × (buffer k ≡ buffer n ++ rest)
unfolding tables
buffer-prefix n zero h =
    let e : n ≡ 0 = omega arith in ([], ap buffer (sym e) ∙ sym (append-nil (buffer n)))
buffer-prefix n (suc k) h = elim (Bool-cases (n == suc k)) [
  | inl e ↦ let e' : suc k ≡ n = ground arith in ([], ap buffer e' ∙ sym (append-nil (buffer n)))
  | inr e ↦
      let (rest, q) = buffer-prefix n k (ground arith) in
      (rest ++ entry k, rw q (append_assoc (buffer n) rest (entry k)))
]

length-offsets : (k : ℕ) → length (tables k).0 ≡ k
unfolding tables
length-offsets zero = refl
length-offsets (suc k) =
    omega
      (arith, length-append {0} (tables k).0 (length (buffer k) % 2 ^ 32 ∷ []), length-offsets k)

-- The offset of an entry is the length of the entries before it.
offset : (n k : ℕ) → n < k → k ≤ table_size → get_or (tables k).0 n 0 ≡ length (buffer n)
unfolding tables
offset n zero h le = absurd (omega arith)
offset n (suc k) h le = elim (Bool-cases (n == k)) [
  | inl e ↦
      let same : n ≡ length (tables k).0 = ground (arith, length-offsets k) in
      let same_index : k ≡ n = ground arith in
      let low : length (buffer k) % 2 ^ 32 ≡ length (buffer k) =
        omega (arith, length-buffer-le k (omega arith)) in
      ap (λ i. get_or (tables (suc k)).0 i 0) same
      ∙ get_or-append_last (tables k).0 _ 0
      ∙ low
      ∙ ap (λ i. length (buffer i)) same_index
  | inr e ↦
      get_or-append (tables k).0 _ n 0 (ground (arith, length-offsets k))
      ∙ offset n k (ground arith) (omega arith)
]

buffer-suc : (n : ℕ) → buffer (suc n) ≡ buffer n ++ entry n
unfolding tables
buffer-suc n = refl

-- What is cut out between two offsets is the entry, the last one too.
slice-entry :
    (n t : ℕ) → suc n ≤ t → slice (buffer t) (length (buffer n)) (length (buffer (suc n))) ≡ entry n
slice-entry n t h =
    let (rest, q) = buffer-prefix (suc n) t h in
    ap (λ b. drop (length (buffer n)) (take (length (buffer (suc n))) b)) q
    ∙ ap (drop (length (buffer n))) (take-length-append (buffer (suc n)) rest)
    ∙ ap (drop (length (buffer n))) (buffer-suc n)
    ∙ drop-length-append (buffer n) (entry n)

drop-entry : (n t : ℕ) → suc n ≡ t → drop (length (buffer n)) (buffer t) ≡ entry n
drop-entry n t h =
    ap (λ k. drop (length (buffer n)) (buffer k)) (sym h)
    ∙ ap (drop (length (buffer n))) (buffer-suc n)
    ∙ drop-length-append (buffer n) (entry n)

entry-index :
    (i : ℤ) → in_table i ≡ true → (entry (index i) ≡ format_int i) × (index i < table_size)
unfolding entry
entry-index (pos n) h = (ap format_int (ground arith), ground arith)
entry-index (negsuc n) h = (ap format_int (ground arith), ground arith)

last_index :
    (i : ℤ) → in_table i ≡ true → pos_part i == max_itoa ≡ true → suc (index i) ≡ table_size
last_index (pos n) h l = ground arith
last_index (negsuc n) h l = ground arith

inner_index :
    (i : ℤ) → in_table i ≡ true → pos_part i == max_itoa ≡ false → suc (index i) < table_size
inner_index (pos n) h l = ground arith
inner_index (negsuc n) h l = ground arith

in_range :
    (i : ℤ) (t : ℕ)
    → t ≡ table_size
    → in_table i ≡ true
    → (if pos_part i == max_itoa
        then drop (get_or (tables t).0 (index i) 0) (tables t).1
        else slice
            (tables t).1
            (get_or (tables t).0 (index i) 0)
            (get_or (tables t).0 (suc (index i)) 0))
      ≡ format_int i
in_range i t e h =
    let (same, lt) = entry-index i h in
    let from = offset (index i) t (omega arith) (omega arith) in
    elim (Bool-cases (pos_part i == max_itoa)) [
      | inl l ↦ rw (l, from) (drop-entry (index i) t (last_index i h l ∙ sym e) ∙ same)
      | inr l ↦
          let to = offset (suc (index i)) t (omega (arith, inner_index i h l)) (omega arith) in
          rw (l, from, to) (slice-entry (index i) t (omega arith) ∙ same)
    ]

-- The table gives FormatInt's digits for every integer.
pub itoa-eq-format_int : (i : ℤ) → itoa i ≡ format_int i
unfolding itoa
itoa-eq-format_int i = elim (Bool-cases (in_table i)) [
  | inl h ↦ rw h (in_range i table_size refl h)
  | inr h ↦ rw h
]
