-- ===== src/Redis/Codec/Btoi.antt =====
-- btoi64: a fast path for up to nine bytes in front of strconv.ParseInt, which it agrees with.
use native.Mathlib.Nat.{mul-le-mul_right, pow-suc}
use samaritan.Prelude.{
  ℕ, zero, suc, ◌+◌, ◌-◌, ◌*◌, ◌^◌, ◌<◌, ◌≤◌, ◌≡◌, inl, inr, Bool, true, false, not, ◌&&◌, Option,
  none, some, [], ◌∷◌, Bytes, length, drop, ◌==◌, ltb, if◌then◌else◌, Bool-cases, Option-cases,
  arith, ℤ, pos, neg,
}
use samaritan.Strconv.{is_digit, fold_digits, parse_magnitude, parse_int}

-- The loop over the digits: the number so far, and the bytes from the first that is no digit.
unfoldable pub scan_digits : ℕ → Bytes → ℕ × Bytes
scan_digits n [] = (n, [])
scan_digits n (c ∷ cs) = if is_digit c then scan_digits ((c - b'0') + n * 10) cs else (n, c ∷ cs)

-- The sign and the number of bytes that it takes.
abbrev pub sign : Bytes → Bool × ℕ
sign [] = (false, 0)
sign (c ∷ cs) = if c == b'-' then (true, 1) else if c == b'+' then (false, 1) else (false, 0)

-- The fast path; `none` falls through to ParseInt.
unfoldable pub fast_path : Bytes → Option ℤ
unfolding scan_digits
fast_path b =
    let (minus, i) = sign b in
    if length b == i
    then none
    else (let (n, left) = scan_digits 0 (drop i b) in
        if length left == 0 then some (if minus then neg n else pos n) else none)

unfoldable pub btoi64 : Bytes → Option ℤ
unfolding fast_path
btoi64 b =
    if not (length b == 0) && ltb (length b) 10
    then elim (fast_path b) [ some i ↦ some i | none ↦ parse_int b ]
    else parse_int b

scan_digits-some :
    (n : ℕ) (cs : Bytes) {m : ℕ} → fold_digits n cs ≡ some m → scan_digits n cs ≡ (m, [])
unfolding scan_digits fold_digits
scan_digits-some n [] h = ground arith
scan_digits-some n (c ∷ cs) {m} h =
    ground (arith, scan_digits-some ((c - b'0') + n * 10) cs {m = m}, comm)
  where
    comm : n * 10 + (c - b'0') ≡ c - b'0' + n * 10
    comm = omega arith

scan_digits-none : (n : ℕ) (cs : Bytes) → fold_digits n cs ≡ none → 0 < length (scan_digits n cs).1
unfolding scan_digits fold_digits
scan_digits-none n [] h = cc
scan_digits-none n (c ∷ cs) h = ground (arith, scan_digits-none ((c - b'0') + n * 10) cs, comm)
  where
    comm : n * 10 + (c - b'0') ≡ c - b'0' + n * 10
    comm = omega arith

lt_times_ten : (a b p m : ℕ) → m < a * p → a ≤ b * 10 → m < b * (p * 10)
lt_times_ten a b p m h k = omega (arith, mul-le-mul_right p k)

fold_digits-lt :
    (n : ℕ) (cs : Bytes) {m : ℕ} → fold_digits n cs ≡ some m → m < suc n * 10 ^ length cs
unfolding fold_digits
fold_digits-lt n [] {m} h = omega (arith, count h)
  where
    count : ◌≡◌ {A = Option ℕ} (some n) (some m) → n ≡ m
    count e = cc
fold_digits-lt n (c ∷ cs) {m} h = elim (Bool-cases (is_digit c)) [
  | inl e ↦
      let ih = fold_digits-lt (n * 10 + (c - b'0')) cs {m = m} (ground arith) in
      let digit : suc (n * 10 + (c - b'0')) ≤ suc n * 10 = ground arith in
      rw (pow-suc 10 (length cs)) (lt_times_ten _ (suc n) (10 ^ length cs) m ih digit)
  | inr e ↦ absurd (ground arith)
]

pow10-le : (k : ℕ) → k < 10 → 10 ^ k ≤ 1_000_000_000
pow10-le zero h = omega arith
pow10-le (suc zero) h = omega arith
pow10-le (suc (suc zero)) h = omega arith
pow10-le (suc (suc (suc zero))) h = omega arith
pow10-le (suc (suc (suc (suc zero)))) h = omega arith
pow10-le (suc (suc (suc (suc (suc zero))))) h = omega arith
pow10-le (suc (suc (suc (suc (suc (suc zero)))))) h = omega arith
pow10-le (suc (suc (suc (suc (suc (suc (suc zero))))))) h = omega arith
pow10-le (suc (suc (suc (suc (suc (suc (suc (suc zero)))))))) h = omega arith
pow10-le (suc (suc (suc (suc (suc (suc (suc (suc (suc zero))))))))) h = omega arith
pow10-le (suc (suc (suc (suc (suc (suc (suc (suc (suc (suc k)))))))))) h = absurd (omega arith)

-- Nine digits stand for the number that the loop computes, below any bound of 64 bits.
magnitude :
    (bound : ℕ) (ds : Bytes)
    → length ds < 10
    → 0 < length ds
    → 1_000_000_000 ≤ bound
    → length (scan_digits 0 ds).1 ≡ 0
    → parse_magnitude bound ds ≡ some (scan_digits 0 ds).0
magnitude bound [] short some_byte wide all = absurd (omega arith)
magnitude bound (c ∷ cs) short some_byte wide all = elim (Option-cases (fold_digits 0 (c ∷ cs))) [
  | inl e ↦ absurd (omega (arith, scan_digits-none 0 (c ∷ cs) e))
  | inr (m, e) ↦
      let small : m < 1 * 10 ^ length (c ∷ cs) = fold_digits-lt 0 (c ∷ cs) e in
      let fits : m ≤ bound = omega (arith, small, pow10-le (length (c ∷ cs)) short) in
      rw (scan_digits-some 0 (c ∷ cs) e) (unfold parse_magnitude in ground (arith, e))
]

fast_path_lem : (b : Bytes) {i : ℤ} → length b < 10 → fast_path b ≡ some i → parse_int b ≡ some i
unfolding fast_path parse_int
fast_path_lem [] h e = ground arith
fast_path_lem (c ∷ cs) h e = ground (
  arith,
  magnitude 0x8000_0000_0000_0000 cs,
  magnitude 0x7fff_ffff_ffff_ffff cs,
  magnitude 0x7fff_ffff_ffff_ffff (c ∷ cs),
)

-- On every byte sequence the parser with the fast path returns what ParseInt returns.
pub btoi64-eq-parse_int : (b : Bytes) → btoi64 b ≡ parse_int b
unfolding btoi64
btoi64-eq-parse_int b = elim (Option-cases (fast_path b)) [
  | inl e ↦ ground (arith, e)
  | inr (i, e) ↦ ground (arith, fast_path_lem b {i = i})
]
