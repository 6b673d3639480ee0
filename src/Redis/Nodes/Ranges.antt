-- ===== src/Redis/Nodes/Ranges.antt =====
-- The parser on slots and ranges as Redis prints them.
use samaritan.Prelude.{
  ℕ, zero, suc, ◌+◌, ◌-◌, ◌^◌, ◌<◌, ◌≡◌, ◌≢◌, refl, ap, ◌∙◌, true, false, some, ◌==◌, List, [], ◌∷◌,
  ◌++◌, map, Bytes, All, All-weaken, ℤ, pos, ◌+ℤ◌, arith,
}
use samaritan.Strconv.{
  format_uint, format_int, parse_int, parse_int-format_int, format_uint-IsDigit, IsDigit,
  format_uint-cons,
}
use samaritan.Redis.Nodes.Segments.{
  split_by, last_is, is_migrating, count_from, parsed, parse_segment, parse_cluster_nodes_slot,
}

abbrev pub Without : ℕ → ℕ → Type 0
Without c b = b ≢ c

pub split_by-single : (c : ℕ) (s : Bytes) → All (Without c) s → split_by c s ≡ s ∷ []
unfolding split_by
split_by-single c [] h = refl
split_by-single c (b ∷ s) h = ground (arith, split_by-single c s h.1)

pub split_by-append :
    (c : ℕ) (s t : Bytes) → All (Without c) s → split_by c (s ++ c ∷ t) ≡ s ∷ split_by c t
unfolding split_by
split_by-append c [] t h = ground arith
split_by-append c (b ∷ s) t h = ground (arith, split_by-append c s t h.1)

-- One slot, a range of slots, or a slot on its way to another node, in brackets.
pub data Segment : Type 0 where
  one : ℕ → Segment
  range : ℕ → ℕ → Segment
  moving : Bytes → Segment

abbrev pub print : Segment → Bytes
print (one n) = format_uint n
print (range a b) = format_uint a ++ b'-' ∷ format_uint b
print (moving text) = b'[' ∷ (text ++ b']' ∷ [])

-- n numbers from a on.
abbrev pub numbers : ℕ → ℕ → List ℕ
numbers zero a = []
numbers (suc n) a = a ∷ numbers n (suc a)

-- The slots that a node serves for a segment.
abbrev pub slots : Segment → List ℤ
slots (one n) = pos n ∷ []
slots (range a b) = map pos (numbers (suc b - a) a)
slots (moving text) = []

abbrev pub all_slots : List Segment → List ℤ
all_slots [] = []
all_slots (s ∷ ss) = slots s ++ all_slots ss

abbrev pub IsSmall : Segment → Type 0
IsSmall (one n) = n < 2 ^ 63
IsSmall (range a b) = (a < 2 ^ 63) × (b < 2 ^ 63 - 1)
IsSmall (moving text) = Unit

count_from-pos : (n a : ℕ) → count_from n (pos a) ≡ map pos (numbers n a)
count_from-pos zero a = refl
count_from-pos (suc n) a =
    let next : pos a +ℤ pos 1 ≡ pos (suc a) = ground arith in
    ap (◌∷◌ (pos a)) (ap (count_from n) next ∙ count_from-pos n (suc a))

no_dash : (n : ℕ) → All (Without b'-') (format_uint n)
no_dash n =
    All-weaken IsDigit (Without b'-') (format_uint n) (λ c d e. omega (arith, d, e))
      (format_uint-IsDigit n)

parse_int-format_uint : (n : ℕ) → n < 2 ^ 63 → parse_int (format_uint n) ≡ some (pos n)
unfolding format_int
parse_int-format_uint n h = parse_int-format_int (pos n) (omega arith)

not_migrating : (n : ℕ) (s : Bytes) → is_migrating (format_uint n ++ s) ≡ false
not_migrating n s = let (c, cs, e, d) = format_uint-cons n in rw e (ground (arith, d))

plain_migrating : (n : ℕ) → is_migrating (format_uint n) ≡ false
plain_migrating n = let (c, cs, e, d) = format_uint-cons n in rw e (ground (arith, d))

last_is-append : (c b : ℕ) (t : Bytes) → last_is c (b ∷ (t ++ c ∷ [])) ≡ true
last_is-append c b [] = ground arith
last_is-append c b (d ∷ t) = last_is-append c d t

segment_lem : (s : Segment) → IsSmall s → parse_segment (print s) ≡ parsed (slots s)
unfolding parse_segment
segment_lem (one n) h =
    let whole = split_by-single b'-' (format_uint n) (no_dash n) in
    rw (plain_migrating n, whole, parse_int-format_uint n h) refl
segment_lem (range a b) h =
    let start = split_by-append b'-' (format_uint a) (format_uint b) (no_dash a) in
    let end = split_by-single b'-' (format_uint b) (no_dash b) in
    let ends : b == 0x7fff_ffff_ffff_ffff ≡ false = ground arith in
    let width : b + 0 + 1 - (a + 0) ≡ suc b - a = omega arith in
    rw
      (
        not_migrating a (b'-' ∷ format_uint b),
        start,
        end,
        parse_int-format_uint a h.0,
        parse_int-format_uint b (omega arith),
        ends,
      )
      (ap parsed (ap (λ (n : ℕ). count_from n (pos a)) width ∙ count_from-pos (suc b - a) a))
segment_lem (moving text) h = rw (last_is-append b']' b'[' text) refl

-- The parser of a node's slots, on slots, ranges and moving slots printed with numbers below 2^63, and
-- ranges that end before the greatest of these, returns every slot and every slot of every range, bounds included, in their order, and nothing for
-- the moving ones.
pub parse_slots-printed :
    (ss : List Segment)
    → All IsSmall ss
    → parse_cluster_nodes_slot (map print ss) ≡ parsed (all_slots ss)
unfolding parse_cluster_nodes_slot
parse_slots-printed [] h = refl
parse_slots-printed (s ∷ ss) h = rw (segment_lem s h.0, parse_slots-printed ss h.1) refl
