-- ===== src/Strconv/Defs.antt =====
-- Decimal numbers, as `strconv` prints and reads them.
use samaritan.Prelude.{
  ℕ, zero, suc, ◌+◌, ◌-◌, ◌*◌, ◌/◌, ◌%◌, Bool, ◌&&◌, Option, none, some, [], ◌∷◌, Bytes, ltb, leb,
  ◌==◌, if◌then◌else◌, ℤ, pos, negsuc, neg,
}

abbrev pub is_digit : ℕ → Bool
is_digit c = leb b'0' c && leb c b'9'

-- The digits of `n` in front of `acc`. The fuel is the number itself and one more.
unfoldable pub digits : ℕ → ℕ → Bytes → Bytes
digits zero n acc = acc
digits (suc f) n acc =
    let c = (n % 10 + b'0') ∷ acc in let rest = digits f (n / 10) c in if ltb n 10 then c else rest

unfoldable pub format_uint : ℕ → Bytes
unfolding digits
format_uint n = digits (suc n) n []

unfoldable pub format_int : ℤ → Bytes
unfolding format_uint
format_int (pos n) = format_uint n
format_int (negsuc n) = b'-' ∷ format_uint (suc n)

-- The number that a run of digits stands for, after the digits of `n`.
unfoldable pub fold_digits : ℕ → Bytes → Option ℕ
fold_digits n [] = some n
fold_digits n (c ∷ cs) = if is_digit c then fold_digits (n * 10 + (c - b'0')) cs else none

-- ParseInt without its sign: at least one digit, and a value of at most `bound`.
unfoldable pub parse_magnitude : ℕ → Bytes → Option ℕ
unfolding fold_digits
parse_magnitude bound [] = none
parse_magnitude bound (c ∷ cs) = elim (fold_digits 0 (c ∷ cs)) [
  | none ↦ none
  | some n ↦ if leb n bound then some n else none
]

abbrev pub signed : (ℕ → ℤ) → Option ℕ → Option ℤ
signed f none = none
signed f (some n) = some (f n)

unfoldable pub parse_int : Bytes → Option ℤ
unfolding parse_magnitude
parse_int [] = none
parse_int (c ∷ cs) =
    if c == b'-'
    then signed neg (parse_magnitude 0x8000_0000_0000_0000 cs)
    else if c == b'+'
    then signed pos (parse_magnitude 0x7fff_ffff_ffff_ffff cs)
    else signed pos (parse_magnitude 0x7fff_ffff_ffff_ffff (c ∷ cs))
