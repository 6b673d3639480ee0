-- ===== src/Redis/Compress/Values.antt =====
-- Compressed values come back as they were.
use samaritan.Prelude.{
  ℕ, zero, suc, ◌≤◌, ◌<◌, ◌≡◌, refl, ap, ap₂, ◌⊎◌, inl, inr, Bool, true, false, not, ◌&&◌,
  Bool-cases, Option, some, Option-cases, List, [], ◌∷◌, ◌++◌, map, All, Bytes, bytes_equal, length,
  take, ltb, leb, arith,
}
use samaritan.Redis.Resp.{RespList, cons, of_list, new_bulk_string, new_bulk_bytes}
use samaritan.Redis.Compress.Defs.{
  Compressor, IsCompressor, Compression, CpsError, cps_magic_number, cps_hdr_len, header, shorter,
  compress, decompress, restored, restore, compress_text, compress_from, decompress_items,
  read_or_fail,
}

-- A value that begins with the magic number and is long enough for a header.
abbrev pub is_marked : Bytes → Bool
is_marked src = not (ltb (length src) cps_hdr_len) && bytes_equal cps_magic_number (take 3 src)

unmarked-restored :
    (c : Compressor) (src : Bytes) → is_marked src ≡ false → restored (decompress c src) src ≡ src
unfolding decompress
unmarked-restored c src h = ground arith

marked-decompress :
    (c : Compressor) (src y : Bytes)
    → IsCompressor c
    → c.write src ≡ some y
    → decompress c (header 0 ++ y) ≡ inr src
unfolding decompress bytes_equal
marked-decompress c src y law w =
    let back = law.read_written src y w in
    let long : ltb (suc (suc (suc (suc (suc (suc (length y))))))) 6 ≡ false = ground arith in
    rw (long, decompress) (ap read_or_fail back)

-- Whatever shorter chooses.
shorter-restored :
    (c : Compressor) (src y : Bytes)
    → IsCompressor c
    → c.write src ≡ some y
    → is_marked src ≡ false
    → let t = shorter (header 0 ++ y) src in restored (decompress c t) t ≡ src
shorter-restored c src y law w h = elim (Bool-cases (leb (length src) (length (header 0 ++ y)))) [
  | inl e ↦ rw (e, shorter) (unmarked-restored c src h)
  | inr e ↦
      rw (e, shorter)
        (ap (λ (d : CpsError ⊎ Bytes). restored d (header 0 ++ y))
          (marked-decompress c src y law w))
]

-- A value that does not look compressed itself comes back from its compressed form, and no value
-- gets longer.
pub compress-restored :
    (c : Compressor) (algorithm : ℕ) (src : Bytes)
    → IsCompressor c
    → is_marked src ≡ false
    → let t = compress c algorithm src in
      (restored (decompress c t) t ≡ src) × (length t ≤ length src)
unfolding compress
compress-restored c (suc n) src law h = (unmarked-restored c src h, omega arith)
compress-restored c zero src law h = elim (Option-cases (c.write src)) [
  | inl e ↦ rw e (unmarked-restored c src h, omega arith)
  | inr (y, e) ↦ rw e (shorter-restored c src y law e h, ground arith)
]

text_restored :
    (c : Compressor) (cfg : Compression) (src : Bytes)
    → IsCompressor c
    → is_marked src ≡ false
    → restore c (compress_text c cfg (some src)) ≡ some src
unfolding restore compress_text
text_restored c cfg src law h = elim (Bool-cases (ltb (length src) cfg.threshold)) [
  | inl e ↦ rw e (ap some (unmarked-restored c src h))
  | inr e ↦ rw e (ap some (compress-restored c cfg.algorithm src law h).0)
]

abbrev pub IsUnmarked : Bytes → Type 0
IsUnmarked x = is_marked x ≡ false

abbrev pub bulk_strings : List Bytes → RespList
bulk_strings xs = of_list (map new_bulk_string xs)

-- Bulk strings that do not look compressed, after the filter has compressed every second one from
-- any offset on, are turned back by the filter's hook into what they were, whatever the threshold
-- and the algorithm.
pub items_restored :
    (c : Compressor) (cfg : Compression) (n : ℕ) (xs : List Bytes)
    → IsCompressor c
    → All IsUnmarked xs
    → decompress_items c (compress_from c cfg n (bulk_strings xs)) ≡ bulk_strings xs
unfolding decompress_items compress_from
items_restored c cfg n [] law p = refl
items_restored c cfg zero (x ∷ xs) law p =
    ap₂ (λ (t : Option Bytes) (r : RespList). cons (new_bulk_bytes t) r)
      (text_restored c cfg x law p.0) (items_restored c cfg 1 xs law p.1)
items_restored c cfg (suc n) (x ∷ xs) law p =
    ap₂ (λ (t : Option Bytes) (r : RespList). cons (new_bulk_bytes t) r)
      (unfold restore in ap some (unmarked-restored c x p.0)) (items_restored c cfg n xs law p.1)

-- A value below the threshold that is itself a header and a compressed text is stored as it is, and
-- comes back as the text.
pub forged_header :
    (c : Compressor) (cfg : Compression) (x y : Bytes)
    → IsCompressor c
    → c.write x ≡ some y
    → length (header 0 ++ y) < cfg.threshold
    → restore c (compress_text c cfg (some (header 0 ++ y))) ≡ some x
unfolding restore compress_text
forged_header c cfg x y law w lt =
    let below : ltb (length (header 0 ++ y)) cfg.threshold ≡ true = ground arith in
    rw (below, compress_text)
      (ap (λ (d : CpsError ⊎ Bytes). some (restored d (header 0 ++ y)))
        (marked-decompress c x y law w))
