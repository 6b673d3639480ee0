-- ===== src/Redis/Slot/Hashtag.antt =====
-- hashtag (proc/redis/util.go): the part of a key that is hashed, and the slot of a key.
use Prim.Native.Nat.{bit_and}
use samaritan.Prelude.{
  ℕ, suc, ◌+◌, ◌-◌, ◌≡◌, ◌≢◌, refl, [], ◌∷◌, ◌++◌, Bytes, All, length, take, drop, ◌==◌,
  if◌then◌else◌, arith,
}
use samaritan.Redis.Slot.Crc.{crc16}

-- The loops of hashtag: the first index of the byte, or the length.
unfoldable pub index_of : ℕ → Bytes → ℕ
index_of c [] = 0
index_of c (b ∷ bs) = let rest = suc (index_of c bs) in if b == c then 0 else rest

unfoldable pub hashtag : Bytes → Bytes
unfolding index_of
hashtag b =
    let n = length b in
    let i = index_of b'{' b in
    let j = i + 1 + index_of b'}' (drop (i + 1) b) in
    if i == n
    then b
    else if j == n
    then b
    else if j == i + 1
    then b
    else take (j - (i + 1)) (drop (i + 1) b)

unfoldable pub slot_of : Bytes → ℕ
slot_of key = bit_and (crc16 (hashtag key)) 16383

abbrev pub Without : ℕ → ℕ → Type 0
Without c b = b ≢ c

pub index_of-append : (c : ℕ) (p q : Bytes) → All (Without c) p → index_of c (p ++ c ∷ q) ≡ length p
unfolding index_of
index_of-append c [] q h = ground arith
index_of-append c (b ∷ p) q h = ground (arith, index_of-append c p q h.1)

pub index_of_absent : (c : ℕ) (p : Bytes) → All (Without c) p → index_of c p ≡ length p
unfolding index_of
index_of_absent c [] h = refl
index_of_absent c (b ∷ p) h = ground (arith, index_of_absent c p h.1)
