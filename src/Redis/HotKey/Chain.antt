-- ===== src/Redis/HotKey/Chain.antt =====
-- Where the items stand in the chain of frequency nodes, and what the operations do to that.
use samaritan.Prelude.{
  ℕ, suc, ◌+◌, ◌^◌, ◌<◌, ◌≤◌, ◌≡◌, refl, subst, inl, inr, Bool, Bool-cases, List, [], ◌∷◌, ◌++◌,
  Bytes, bytes_equal, bytes_equal→eq, length, length-append, ◌==◌, if◌then◌else◌, arith,
}
use samaritan.Redis.HotKey.Counter.{FreqNode, next_freq, free_item, to_next, keep_node, move}

abbrev pub one : Bool → ℕ
one b = if b then 1 else 0

-- How often a key stands in a list.
abbrev pub times : Bytes → List Bytes → ℕ
times k [] = 0
times k (x ∷ xs) = one (bytes_equal x k) + times k xs

-- How often a key stands in the nodes of frequency g.
abbrev pub stands : Bytes → ℕ → List FreqNode → ℕ
stands k g [] = 0
stands k g (n ∷ ns) = (if n.freq == g then times k n.item_list else 0) + stands k g ns

-- 1 for the key and the frequency of a place.
abbrev pub place : Bytes → ℕ → Bytes → ℕ → ℕ
place key f k g = if bytes_equal key k then one (f == g) else 0

-- Frequencies above b that ascend, with no empty node.
abbrev pub Above : ℕ → List FreqNode → Type 0
Above b [] = Unit
Above b (n ∷ ns) = (b < n.freq) × (0 < length n.item_list) × Above n.freq ns

pub Above-weaken : (a b : ℕ) (ns : List FreqNode) → a ≤ b → Above b ns → Above a ns
Above-weaken a b [] h v = tt
Above-weaken a b (n ∷ ns) h v = (omega arith, v.1, v.2)

times-last :
    (k x : Bytes) (xs : List Bytes) → times k (xs ++ x ∷ []) ≡ times k xs + one (bytes_equal x k)
times-last k x [] = omega arith
times-last k x (y ∷ ys) = omega (arith, times-last k x ys)

times-free_item :
    (key k : Bytes) (xs : List Bytes)
    → 0 < times key xs
    → times k (free_item key xs) + one (bytes_equal key k) ≡ times k xs
unfolding free_item
times-free_item key k [] h = absurd (omega arith)
times-free_item key k (x ∷ xs) h = elim (Bool-cases (bytes_equal x key)) [
  | inl e ↦ rw (e, bytes_equal→eq x key e) (omega arith)
  | inr e ↦ rw e (ground (arith, times-free_item key k xs))
]

pub stands-to_next :
    (key : Bytes) (f : ℕ) (ns : List FreqNode) (k : Bytes) (g : ℕ)
    → stands k g (to_next key f ns) ≡ stands k g ns + place key f k g
unfolding to_next
stands-to_next key f [] k g = ground arith
stands-to_next key f (n ∷ ns) k g = ground (arith, times-last k key n.item_list)

pub stands-keep_node :
    (f : ℕ) (xs : List Bytes) (ns : List FreqNode) (k : Bytes) (g : ℕ)
    → stands k g (keep_node f xs ns) ≡ (if f == g then times k xs else 0) + stands k g ns
stands-keep_node f [] ns k g = ground arith
stands-keep_node f (x ∷ xs) ns k g = refl

-- A key in a node stands at a frequency above the bound.
pub stands-Above :
    (k : Bytes) (b g : ℕ) (ns : List FreqNode) → Above b ns → 0 < stands k g ns → b < g
stands-Above k b g [] v h = absurd (omega arith)
stands-Above k b g (n ∷ ns) v h = ground (arith, stands-Above k n.freq g ns v.2)

pub Above-to_next :
    (key : Bytes) (f : ℕ) (ns : List FreqNode) → Above f ns → Above f (to_next key (suc f) ns)
unfolding to_next
Above-to_next key f [] v = (omega arith, omega arith, tt)
Above-to_next key f (n ∷ ns) v = elim (Bool-cases (n.freq == suc f)) [
  | inl e ↦ rw e (v.0, omega (arith, length-append n.item_list (key ∷ [])), v.2)
  | inr e ↦ rw e (omega arith, omega arith, (ground arith, v.1, v.2))
]

pub Above-keep_node :
    (b f : ℕ) (xs : List Bytes) (ns : List FreqNode)
    → b < f
    → Above f ns
    → Above b (keep_node f xs ns)
Above-keep_node b f [] ns h v = Above-weaken b f ns (omega arith) v
Above-keep_node b f (x ∷ xs) ns h v = (h, omega arith, v)

pub Above-move :
    (key : Bytes) (b f : ℕ) (ns : List FreqNode)
    → f + 1 < 2 ^ 64
    → Above b ns
    → Above b (move key f ns)
unfolding move
Above-move key b f [] s v = tt
Above-move key b f (n ∷ ns) s v =
    let next : next_freq f ≡ suc f = omega arith in
    elim (Bool-cases (n.freq == f)) [
      | inl e ↦
          let here : n.freq ≡ f = ground arith in
          rw (e, next)
            (Above-keep_node b f (free_item key n.item_list) (to_next key (suc f) ns) (omega arith)
              (Above-to_next key f ns (subst (λ (x : ℕ). Above x ns) here v.2)))
      | inr e ↦ rw e (v.0, v.1, Above-move key n.freq f ns s v.2)
    ]

pub stands-move :
    (key : Bytes) (b f : ℕ) (ns : List FreqNode) (k : Bytes) (g : ℕ)
    → f + 1 < 2 ^ 64
    → Above b ns
    → 0 < stands key f ns
    → stands k g (move key f ns) + place key f k g ≡ stands k g ns + place key (suc f) k g
unfolding move
stands-move key b f [] k g s v h = absurd (omega arith)
stands-move key b f (n ∷ ns) k g s v h =
    let next : next_freq f ≡ suc f = omega arith in
    elim (Bool-cases (n.freq == f)) [
      | inl e ↦
          let here : n.freq ≡ f = ground arith in
          let later : stands key f ns ≡ 0 = ground (arith, stands-Above key n.freq f ns v.2) in
          rw
            (
              e,
              next,
              stands-keep_node f (free_item key n.item_list) (to_next key (suc f) ns) k g,
              stands-to_next key (suc f) ns k g,
            )
            (ground (arith, times-free_item key k n.item_list))
      | inr e ↦ rw e (ground (arith, stands-move key n.freq f ns k g s v.2))
    ]
