-- ===== src/Strconv/Laws.antt =====
-- What is printed in decimal is read back.
use native.Mathlib.Nat.{pow-suc}
use samaritan.Prelude.{
  ℕ, zero, suc, ◌+◌, ◌*◌, ◌/◌, ◌%◌, ◌<◌, ◌≤◌, ◌≡◌, inl, inr, Bool-cases, subst, ◌∙◌, ◌-◌, ◌^◌,
  length, some, [], ◌∷◌, Bytes, All, All-weaken, ◌≢◌, ltb, arith, ℤ, pos, negsuc, IsInt64,
}
use samaritan.Strconv.Defs.{
  digits, format_uint, format_int, fold_digits, parse_magnitude, parse_int,
}

abbrev pub IsDigit : ℕ → Type 0
IsDigit c = (b'0' ≤ c) × (c ≤ b'9')

digits-IsDigit : (f n : ℕ) (acc : Bytes) → All IsDigit acc → All IsDigit (digits f n acc)
unfolding digits
digits-IsDigit zero n acc h = h
digits-IsDigit (suc f) n acc h = elim (Bool-cases (ltb n 10)) [
  | inl e ↦ rw e (omega arith, h)
  | inr e ↦ rw e (digits-IsDigit f (n / 10) _ (omega arith, h))
]

pub format_uint-IsDigit : (n : ℕ) → All IsDigit (format_uint n)
unfolding format_uint
format_uint-IsDigit n = digits-IsDigit (suc n) n [] tt

fold_digits-digits :
    (f n : ℕ) (acc : Bytes) → n < f → fold_digits 0 (digits f n acc) ≡ fold_digits n acc
unfolding digits fold_digits
fold_digits-digits zero n acc h = absurd (omega arith)
fold_digits-digits (suc f) n acc h = elim (Bool-cases (ltb n 10)) [
  | inl e ↦ rw e (ground (arith, same))
  | inr e ↦ rw e (fold_digits-digits f (n / 10) _ (ground arith) ∙ ground (arith, parts))
]
  where
    same : n < 10 → (n % 10 + b'0' - b'0') ≡ n
    same p = omega arith

    parts : n / 10 * 10 + (n % 10 + b'0' - b'0') ≡ n
    parts = omega arith

pub fold_digits-format_uint : (n : ℕ) → fold_digits 0 (format_uint n) ≡ some n
unfolding format_uint fold_digits
fold_digits-format_uint n = fold_digits-digits (suc n) n [] (omega arith)

digits-cons : (f n : ℕ) (acc : Bytes) → (c : ℕ) × (cs : Bytes) × (digits (suc f) n acc ≡ c ∷ cs)
unfolding digits
digits-cons zero n acc = (n % 10 + b'0', acc, ground arith)
digits-cons (suc f) n acc = elim (Bool-cases (ltb n 10)) [
  | inl e ↦ (n % 10 + b'0', acc, rw e)
  | inr e ↦ rw e (digits-cons f (n / 10) ((n % 10 + b'0') ∷ acc))
]

pub format_uint-cons : (n : ℕ) → (c : ℕ) × (cs : Bytes) × (format_uint n ≡ c ∷ cs) × IsDigit c
unfolding format_uint
format_uint-cons n =
    let (c, cs, e) = digits-cons n n [] in
    let d : All IsDigit (c ∷ cs) = subst (All IsDigit) e (format_uint-IsDigit n) in (c, cs, e, d.0)

parse_magnitude-format_uint :
    (bound n : ℕ) → n ≤ bound → parse_magnitude bound (format_uint n) ≡ some n
unfolding parse_magnitude
parse_magnitude-format_uint bound n h =
    let (c, cs, e, d) = format_uint-cons n in
    let whole : fold_digits 0 (c ∷ cs) ≡ some n =
      subst (λ s. fold_digits 0 s ≡ some n) e (fold_digits-format_uint n) in
    rw e (ground (arith, whole))

-- Reading back a printed integer.
pub parse_int-format_int : (i : ℤ) → IsInt64 i → parse_int (format_int i) ≡ some i
unfolding format_int parse_int
parse_int-format_int (pos n) h =
    let (c, cs, e, d) = format_uint-cons n in
    let m : parse_magnitude 0x7fff_ffff_ffff_ffff (c ∷ cs) ≡ some n =
      subst (λ s. parse_magnitude 0x7fff_ffff_ffff_ffff s ≡ some n) e
        (parse_magnitude-format_uint _ n (omega arith)) in
    rw e (ground (arith, m, d))
parse_int-format_int (negsuc n) h =
    rw (parse_magnitude-format_uint 0x8000_0000_0000_0000 (suc n) (omega arith))

-- A number below 10 ^ (k + 1) has at most k + 1 digits.
pub length-digits-le :
    (k f n : ℕ) (acc : Bytes) → n < 10 ^ suc k → length (digits f n acc) ≤ suc k + length acc
unfolding digits
length-digits-le k zero n acc h = omega arith
length-digits-le zero (suc f) n acc h = ground arith
length-digits-le (suc k) (suc f) n acc h =
    ground (arith, length-digits-le k f (n / 10) ((n % 10 + b'0') ∷ acc), smaller)
  where
    expand : n < 10 ^ suc k * 10
    expand = rw (pow-suc 10 (suc k)) at h

    smaller : n / 10 < 10 ^ suc k
    smaller = omega (arith, expand)

-- An int64 takes at most twenty characters.
pub length-format_int-le : (i : ℤ) → IsInt64 i → length (format_int i) ≤ 20
unfolding format_int format_uint
length-format_int-le (pos n) h = omega (arith, length-digits-le 18 (suc n) n [] (omega arith))
length-format_int-le (negsuc n) h =
    omega (arith, length-digits-le 18 (suc (suc n)) (suc n) [] (omega arith))

abbrev pub IsPlain : ℕ → Type 0
IsPlain c = c ≢ 10

-- No line feed is printed.
pub format_int-IsPlain : (i : ℤ) → All IsPlain (format_int i)
unfolding format_int
format_int-IsPlain (pos n) =
    All-weaken IsDigit IsPlain (format_uint n) (λ c d. omega arith) (format_uint-IsDigit n)
format_int-IsPlain (negsuc n) = (
  omega arith,
  All-weaken IsDigit IsPlain (format_uint (suc n)) (λ c d. omega arith)
      (format_uint-IsDigit (suc n)),
)
