-- ===== src/Prelude/Octets.antt =====
-- Byte sequences: a `[]byte` or `string` of the source is a list of numbers below 256.
use Prim.Native.Nat.{ℕ}
use Prim.Native.Char.{code}
use Prim.Native.String.{String}
use mathlib.Core.Path.{◌≡◌, refl, sym, ◌∙◌}
use mathlib.Core.Logic.{inl, inr}
use mathlib.Core.Bool.{Bool, true, false, ◌&&◌}
use mathlib.Core.List.{List, [], ◌∷◌, ◌++◌}
use native.Mathlib.Omega.{arith}
use samaritan.Prelude.Tests.{◌==◌, Bool-cases}

abbrev pub Bytes : Type 0
Bytes = List ℕ

abbrev pub All {ℓ κ} : {A : Type ℓ} → (A → Type κ) → List A → Type κ
All P [] = Unit
All P (x ∷ xs) = P x × All P xs

pub All-append {ℓ κ} :
    {A : Type ℓ} (P : A → Type κ) (xs ys : List A) → All P xs → All P ys → All P (xs ++ ys)
All-append P [] ys hx hy = hy
All-append P (x ∷ xs) ys hx hy = (hx.0, All-append P xs ys hx.1 hy)

pub All-weaken {ℓ κ κ'} :
    {A : Type ℓ} (P : A → Type κ) (Q : A → Type κ') (xs : List A)
    → ((x : A) → P x → Q x)
    → All P xs
    → All Q xs
All-weaken P Q [] f h = tt
All-weaken P Q (x ∷ xs) f h = (f x h.0, All-weaken P Q xs f h.1)

-- The bytes of a text in ASCII.
abbrev pub bytes : String → Bytes
bytes String.[] = []
bytes (String.◌∷◌ c s) = code c ∷ bytes s

-- bytes.Equal
unfoldable pub bytes_equal : Bytes → Bytes → Bool
bytes_equal [] [] = true
bytes_equal (x ∷ xs) (y ∷ ys) = x == y && bytes_equal xs ys
bytes_equal _ _ = false

pub bytes_equal→eq : (xs ys : Bytes) → bytes_equal xs ys ≡ true → xs ≡ ys
unfolding bytes_equal
bytes_equal→eq [] [] h = refl
bytes_equal→eq [] (y ∷ ys) h = cc
bytes_equal→eq (x ∷ xs) [] h = cc
bytes_equal→eq (x ∷ xs) (y ∷ ys) h = ground (arith, bytes_equal→eq xs ys)

pub bytes_equal_refl : (xs : Bytes) → bytes_equal xs xs ≡ true
unfolding bytes_equal
bytes_equal_refl [] = refl
bytes_equal_refl (x ∷ xs) = ground (arith, bytes_equal_refl xs)

abbrev pub lf : ℕ
lf = 10

abbrev pub cr : ℕ
cr = 13

abbrev pub crlf : Bytes
crlf = cr ∷ lf ∷ []

pub bytes_equal_comm : (a b : Bytes) → bytes_equal a b ≡ bytes_equal b a
bytes_equal_comm a b = elim (Bool-cases (bytes_equal a b)) [
  | inl e ↦ rw (bytes_equal→eq a b e) refl
  | inr e ↦ elim (Bool-cases (bytes_equal b a)) [
    | inl f ↦ rw (bytes_equal→eq b a f) refl
    | inr f ↦ e ∙ sym f
  ]
]
