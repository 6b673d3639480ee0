-- ===== src/Redis/Slot/Bits.antt =====
-- Masks and exclusive or of numbers, from their laws for the lowest bit.
use native.Mathlib.Nat.{mod-lt, div-add-mod', mul_assoc, mul-add-mod_self_right, mod-eq_of_lt}
use Prim.Native.Nat.{
  bit_and, bit_xor, bit_and-bitwise, bit_xor-bitwise, bit_or, bit_or-bitwise, max, digits, min,
  differ,
}
use samaritan.Prelude.{
  ℕ, zero, suc, ◌+◌, ◌*◌, ◌/◌, ◌%◌, ◌^◌, ◌≤◌, ◌<◌, ◌≡◌, refl, sym, ap, ◌∙◌, arith,
}

module _ (z : ℕ → ℕ) (f : ℕ → ℕ → ℕ) where
  -- The fuel of the bitwise definition does not matter once it reaches the first number.
  digits_enough : (n m a b : ℕ) → a ≤ n → a ≤ m → digits z f n a b ≡ digits z f m a b
  digits_enough zero zero a b p q = refl
  digits_enough zero (suc m) zero b p q = refl
  digits_enough zero (suc m) (suc a) b p q = absurd (omega arith)
  digits_enough (suc n) zero zero b p q = refl
  digits_enough (suc n) zero (suc a) b p q = absurd (omega arith)
  digits_enough (suc n) (suc m) zero b p q = refl
  digits_enough (suc n) (suc m) (suc a) b p q =
      omega (arith, digits_enough n m (suc a / 2) (b / 2) (omega arith) (omega arith))

bit_and_low : (a b : ℕ) → bit_and a b ≡ bit_and (a / 2) (b / 2) * 2 + min (a % 2) (b % 2)
bit_and_low zero b = omega (arith, bit_and-bitwise 0 b, bit_and-bitwise 0 (b / 2))
bit_and_low (suc a) b = omega (
  arith,
  bit_and-bitwise (suc a) b,
  bit_and-bitwise (suc a / 2) (b / 2),
  digits_enough (λ b. zero) min a (suc a / 2) (suc a / 2) (b / 2) (omega arith) (omega arith),
)

bit_xor_low : (a b : ℕ) → bit_xor a b ≡ bit_xor (a / 2) (b / 2) * 2 + differ (a % 2) (b % 2)
bit_xor_low zero b = omega (arith, bit_xor-bitwise 0 b, bit_xor-bitwise 0 (b / 2))
bit_xor_low (suc a) b = omega (
  arith,
  bit_xor-bitwise (suc a) b,
  bit_xor-bitwise (suc a / 2) (b / 2),
  digits_enough (λ b. b) differ a (suc a / 2) (suc a / 2) (b / 2) (omega arith) (omega arith),
)

differ-lt : (x y : ℕ) → x < 2 → y < 2 → differ x y < 2
differ-lt zero y p q = q
differ-lt (suc x) zero p q = p
differ-lt (suc zero) (suc zero) p q = omega arith
differ-lt (suc zero) (suc (suc y)) p q = absurd (omega arith)
differ-lt (suc (suc x)) (suc y) p q = absurd (omega arith)

bit_and-zero_by : (n a : ℕ) → a ≤ n → bit_and a 0 ≡ 0
bit_and-zero_by n zero h = refl
bit_and-zero_by zero (suc a) h = absurd (omega arith)
bit_and-zero_by (suc n) (suc a) h =
    omega (arith, bit_and_low (suc a) 0, bit_and-zero_by n (suc a / 2) (omega arith))

-- An operation that keeps a bound one bit longer.
pub bit_xor-lt : (k a b : ℕ) → a < 2 ^ k → b < 2 ^ k → bit_xor a b < 2 ^ k
bit_xor-lt zero zero zero p q = omega (arith, bit_xor-bitwise 0 0)
bit_xor-lt zero zero (suc b) p q = absurd (omega arith)
bit_xor-lt zero (suc a) b p q = absurd (omega arith)
bit_xor-lt (suc k) a b p q = omega (
  arith,
  bit_xor_low a b,
  differ-lt (a % 2) (b % 2) (omega arith) (omega arith),
  bit_xor-lt k (a / 2) (b / 2) (omega arith) (omega arith),
)

-- The number of k ones.
abbrev pub ones : ℕ → ℕ
ones zero = 0
ones (suc k) = ones k * 2 + 1

two_pow_pos : (k : ℕ) → 0 < 2 ^ k
two_pow_pos zero = omega arith
two_pow_pos (suc k) = omega (arith, two_pow_pos k)

low_part : (k a : ℕ) → (a / 2) % 2 ^ k * 2 + a % 2 ≡ a % 2 ^ suc k
low_part k a =
    let n = 2 ^ k in
    let b = a / 2 in
    let low = b % n * 2 + a % 2 in
    let r_small : b % n < n = mod-lt b (two_pow_pos k) in
    let split : b / n * n + b % n ≡ b = div-add-mod' b n in
    let double : b / n * (n * 2) ≡ b / n * n * 2 = sym (mul_assoc (b / n) n 2) in
    let whole : b / n * (n * 2) + low ≡ a = omega (arith, double, split) in
    let size : n * 2 ≡ 2 ^ suc k = omega arith in
    sym (
      ap (λ m. a % m) (sym size)
      ∙ ap (λ x. x % (n * 2)) (sym whole)
      ∙ mul-add-mod_self_right (b / n) (n * 2) low
      ∙ mod-eq_of_lt (omega (arith, r_small)))

pub bit_and-ones : (k a : ℕ) → bit_and a (ones k) ≡ a % 2 ^ k
bit_and-ones zero a = omega (arith, bit_and-zero_by a a (omega arith))
bit_and-ones (suc k) a =
    let half : (ones k * 2 + 1) / 2 ≡ ones k = omega arith in
    let odd : (ones k * 2 + 1) % 2 ≡ 1 = omega arith in
    bit_and_low a (ones k * 2 + 1)
    ∙ omega (arith, ap (bit_and (a / 2)) half, bit_and-ones k (a / 2), low_part k a, odd)

bit_and_double : (a b c d : ℕ) → c ≡ a * 2 → d ≡ b * 2 → bit_and c d ≡ bit_and a b * 2
bit_and_double a b c d p q =
    let half : c / 2 ≡ a = omega arith in
    let half' : d / 2 ≡ b = omega arith in
    omega (arith, bit_and_low c d, ap (λ x. bit_and x (d / 2)) half, ap (bit_and a) half')

pub bit_and_shift : (k a b : ℕ) → bit_and (a * 2 ^ k) (b * 2 ^ k) ≡ bit_and a b * 2 ^ k
bit_and_shift zero a b =
    let p : a * 2 ^ 0 ≡ a = omega arith in
    let q : b * 2 ^ 0 ≡ b = omega arith in rw (p, q) (omega arith)
bit_and_shift (suc k) a b =
    bit_and_double (a * 2 ^ k) (b * 2 ^ k) (a * 2 ^ suc k) (b * 2 ^ suc k) (next a) (next b)
    ∙ ap (λ x. x * 2) (bit_and_shift k a b)
    ∙ sym (next (bit_and a b))
  where
    next : (x : ℕ) → x * 2 ^ suc k ≡ x * 2 ^ k * 2
    next x =
        let double : 2 ^ suc k ≡ 2 ^ k * 2 = omega arith in
        ap (λ m. x * m) double ∙ sym (mul_assoc x (2 ^ k) 2)

bit_or_low : (a b : ℕ) → bit_or a b ≡ bit_or (a / 2) (b / 2) * 2 + max (a % 2) (b % 2)
bit_or_low zero b = omega (arith, bit_or-bitwise 0 b, bit_or-bitwise 0 (b / 2))
bit_or_low (suc a) b = omega (
  arith,
  bit_or-bitwise (suc a) b,
  bit_or-bitwise (suc a / 2) (b / 2),
  digits_enough (λ b. b) max a (suc a / 2) (suc a / 2) (b / 2) (omega arith) (omega arith),
)

bit_or-zero_by : (n a : ℕ) → a ≤ n → bit_or a 0 ≡ a
bit_or-zero_by n zero h = omega (arith, bit_or-bitwise 0 0)
bit_or-zero_by zero (suc a) h = absurd (omega arith)
bit_or-zero_by (suc n) (suc a) h =
    omega (arith, bit_or_low (suc a) 0, bit_or-zero_by n (suc a / 2) (omega arith))

-- Numbers side by side.
pub bit_or-add : (k a b : ℕ) → b < 2 ^ k → bit_or (a * 2 ^ k) b ≡ a * 2 ^ k + b
bit_or-add zero a zero h =
    let one : a * 2 ^ 0 ≡ a = omega arith in
    rw one (omega (arith, bit_or-zero_by a a (omega arith)))
bit_or-add zero a (suc b) h = absurd (omega arith)
bit_or-add (suc k) a b h =
    let double : a * 2 ^ suc k ≡ a * 2 ^ k * 2 =
      ap (λ m. a * m) next ∙ sym (mul_assoc a (2 ^ k) 2) in
    let half : a * 2 ^ k * 2 / 2 ≡ a * 2 ^ k = omega arith in
    rw double (
      omega (
        arith,
        bit_or_low (a * 2 ^ k * 2) b,
        ap (λ x. bit_or x (b / 2)) half,
        bit_or-add k a (b / 2) (omega arith),
      ))
  where
    next : 2 ^ suc k ≡ 2 ^ k * 2
    next = omega arith
