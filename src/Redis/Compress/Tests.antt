-- ===== src/Redis/Compress/Tests.antt =====
-- A compressor with a dictionary of one word, and the theorems on compression with it.
use samaritan.Prelude.{
  zero, suc, ◌≤◌, ◌≡◌, refl, ap, ◌∙◌, some, Option, none, [], ◌∷◌, ◌++◌, Bytes, bytes, length, true,
  false, Bool, Bool-cases, inl, inr, some-injective, sym, bytes_equal, bytes_equal→eq, arith,
}
use samaritan.Redis.Compress.Defs.{
  Compressor, IsCompressor, Compression, compress, decompress, restored, restore, header,
  compress_text, compress_from, decompress_items,
}
use samaritan.Redis.Compress.Values.{bulk_strings, compress-restored, items_restored, forged_header}

abbrev word : Bytes
word = bytes "aaaaaaaaaaaa"

-- The word is a single byte; anything else stands behind a 0.
abbrev by_test : Bytes → Bool → Option Bytes
by_test x true = some (1 ∷ [])
by_test x false = some (0 ∷ x)

abbrev expand : Bytes → Option Bytes
expand [] = none
expand (zero ∷ x) = some x
expand (suc n ∷ x) = some word

abbrev dictionary : Compressor
dictionary = record { write = λ x. by_test x (bytes_equal x word); read = expand }

dictionary_law : (x y : Bytes) → by_test x (bytes_equal x word) ≡ some y → expand y ≡ some x
dictionary_law x y w = elim (Bool-cases (bytes_equal x word)) [
  | inl e ↦
      let out : y ≡ 1 ∷ [] = some-injective y (1 ∷ []) (sym w ∙ ap (by_test x) e) in
      ap expand out ∙ ap some (sym (bytes_equal→eq x word e))
  | inr e ↦
      let out : y ≡ 0 ∷ x = some-injective y (0 ∷ x) (sym w ∙ ap (by_test x) e) in ap expand out
]

dictionary-IsCompressor : IsCompressor dictionary
dictionary-IsCompressor = record { read_written = dictionary_law }

abbrev settings : Compression
settings = record { enable = true; algorithm = 0; threshold = 10 }

word_compressed : compress dictionary 0 word ≡ header 0 ++ 1 ∷ []
unfolding compress bytes_equal
word_compressed = refl

compress-restored_example :
    let t = compress dictionary 0 word in
    (restored (decompress dictionary t) t ≡ word) × (length t ≤ 12)
unfolding bytes_equal
compress-restored_example = compress-restored dictionary 0 word dictionary-IsCompressor refl

items_restored_example :
    decompress_items dictionary
      (compress_from dictionary settings 2 (bulk_strings (bytes "set" ∷ bytes "k" ∷ word ∷ [])))
    ≡ bulk_strings (bytes "set" ∷ bytes "k" ∷ word ∷ [])
unfolding bytes_equal
items_restored_example =
    items_restored dictionary settings 2 (bytes "set" ∷ bytes "k" ∷ word ∷ [])
      dictionary-IsCompressor (refl, (refl, (refl, tt)))

forged_header_example :
    restore dictionary (compress_text dictionary settings (some (header 0 ++ 1 ∷ []))) ≡ some word
unfolding bytes_equal
forged_header_example =
    forged_header dictionary settings word (1 ∷ []) dictionary-IsCompressor refl (omega arith)
