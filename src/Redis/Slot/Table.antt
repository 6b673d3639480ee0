-- ===== src/Redis/Slot/Table.antt =====
-- The table of crc16 against the division that it stands for, and the range of a slot.
use Prim.Native.Nat.{bit_and, bit_xor}
use samaritan.Prelude.{
  ℕ, zero, suc, ◌*◌, ◌/◌, ◌%◌, ◌^◌, ◌<◌, ◌≡◌, refl, ap, ◌∙◌, Bool, true, [], ◌∷◌, Bytes, get_or,
  ltb, leb, ◌&&◌, ◌==◌, if◌then◌else◌, All, arith,
}
use samaritan.Redis.Slot.Bits.{bit_xor-lt, bit_and-ones, bit_and_shift}
use samaritan.Redis.Slot.Crc.{crc16tab, crc16_step, crc16_loop, crc16, slot_num}
use samaritan.Redis.Slot.Hashtag.{hashtag, slot_of}

-- Division by x^16 + x^12 + x^5 + 1, one bit at a time.
unfoldable pub poly_bit : ℕ → ℕ
poly_bit c = if leb 0x8000 c then bit_xor (c * 2 % 2 ^ 16) 0x1021 else c * 2

unfoldable pub poly_bits : ℕ → ℕ → ℕ
unfolding poly_bit
poly_bits zero c = c
poly_bits (suc n) c = poly_bits n (poly_bit c)

-- The remainder of a message: every byte is brought in at the top and divided out, with no table.
unfoldable pub remainder : ℕ → Bytes → ℕ
unfolding poly_bits
remainder c [] = c
remainder c (b ∷ bs) =
    remainder (bit_xor (c * 256 % 2 ^ 16) (poly_bits 8 (bit_xor (c / 256) b * 256))) bs

-- A test that every number below n passes.
abbrev all_below : ℕ → (ℕ → Bool) → Bool
all_below zero p = true
all_below (suc n) p = p n && all_below n p

all_below_lem : (n : ℕ) (p : ℕ → Bool) (x : ℕ) → all_below n p ≡ true → x < n → p x ≡ true
all_below_lem zero p x h lt = absurd (omega arith)
all_below_lem (suc n) p x h lt = ground (arith, all_below_lem n p x)

table_test :
    all_below 256
      (λ i. (get_or crc16tab i 0 == poly_bits 8 (i * 256)) && ltb (get_or crc16tab i 0) 0x1_0000)
    ≡ true
unfolding poly_bits
table_test = refl

table-entry :
    (i : ℕ)
    → i < 256
    → (get_or crc16tab i 0 ≡ poly_bits 8 (i * 256)) × (get_or crc16tab i 0 < 2 ^ 16)
table-entry i h =
    let passed =
      all_below_lem 256
        (λ i. (get_or crc16tab i 0 == poly_bits 8 (i * 256)) && ltb (get_or crc16tab i 0) 0x1_0000)
        i table_test h in
    (ground arith, ground arith)

high_mask : (c : ℕ) → bit_and (c * 256 % 2 ^ 16) 0xff00 ≡ c * 256 % 2 ^ 16
high_mask c =
    let a = c % 256 in
    let whole : c * 256 % 2 ^ 16 ≡ a * 256 = omega arith in
    rw whole (bit_and_shift 8 a 255 ∙ omega (arith, bit_and-ones 8 a))

byte_of : (c : ℕ) → c < 2 ^ 16 → bit_and (c / 256) 0xff ≡ c / 256
byte_of c h = omega (arith, bit_and-ones 8 (c / 256))

index-lt : (c b : ℕ) → c < 2 ^ 16 → b < 256 → bit_xor (c / 256) b < 256
index-lt c b h lt = bit_xor-lt 8 (c / 256) b (omega arith) lt

step_eq :
    (c b : ℕ)
    → c < 2 ^ 16
    → b < 256
    → crc16_step c b ≡ bit_xor (c * 256 % 2 ^ 16) (poly_bits 8 (bit_xor (c / 256) b * 256))
unfolding crc16_step
step_eq c b h lt =
    rw (high_mask c, byte_of c h)
      (ap (bit_xor (c * 256 % 2 ^ 16)) (table-entry (bit_xor (c / 256) b) (index-lt c b h lt)).0)

step-lt : (c b : ℕ) → c < 2 ^ 16 → b < 256 → crc16_step c b < 2 ^ 16
unfolding crc16_step
step-lt c b h lt =
    rw (high_mask c, byte_of c h)
      (bit_xor-lt 16 (c * 256 % 2 ^ 16) (get_or crc16tab (bit_xor (c / 256) b) 0) (omega arith)
        (table-entry (bit_xor (c / 256) b) (index-lt c b h lt)).1)

abbrev pub IsByte : ℕ → Type 0
IsByte b = b < 256

loop_eq : (bs : Bytes) (c : ℕ) → c < 2 ^ 16 → All IsByte bs → crc16_loop c bs ≡ remainder c bs
unfolding crc16_loop remainder
loop_eq [] c h all = refl
loop_eq (b ∷ bs) c h all =
    loop_eq bs (crc16_step c b) (step-lt c b h all.0) all.1
    ∙ ap (λ x. remainder x bs) (step_eq c b h all.0)

-- crc16, by its table of 256 entries, computes on every byte sequence the remainder of the division
-- by x^16 + x^12 + x^5 + 1 that is done a bit at a time.
pub crc16-eq-remainder : (bs : Bytes) → All IsByte bs → crc16 bs ≡ remainder 0 bs
unfolding crc16
crc16-eq-remainder bs all = loop_eq bs 0 (omega arith) all

-- The slot of a key is the CRC of its hashtag modulo the number of slots, and so a valid slot.
pub slot_of-in_range :
    (key : Bytes) → (slot_of key ≡ crc16 (hashtag key) % slot_num) × (slot_of key < slot_num)
unfolding slot_of
slot_of-in_range key = let m = bit_and-ones 14 (crc16 (hashtag key)) in (m, omega (arith, m))
