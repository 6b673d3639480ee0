-- ===== src/Redis/Reader/Memory.antt =====
-- A connection that hands out a byte sequence in chunks of at most k + 1 bytes, and then ends.
use Prim.Native.Nat.{min}
use samaritan.Prelude.{
  ℕ, suc, ◌<◌, ◌≤◌, ◌≡◌, ◌≢◌, refl, sym, Option, none, some, [], ◌∷◌, ◌++◌, Bytes, length,
  length-take, take, drop, take-append-drop, arith,
}
use samaritan.Redis.Errors.{Error, eof}
use samaritan.Redis.Reader.Defs.{IoReader, Reader}
use samaritan.Redis.Reader.Stream.{Delivers}

abbrev pub chunk : ℕ → ℕ → Bytes → Bytes × Option Error × Bytes
chunk k n [] = ([], some eof, [])
chunk k n (c ∷ s) = (take (min n (suc k)) (c ∷ s), none, drop (min n (suc k)) (c ∷ s))

length-take_bytes : (n : ℕ) (xs : Bytes) → length (take n xs) ≡ min n (length xs)
length-take_bytes = length-take

pub chunk_some :
    (k n : ℕ) (s : Bytes)
    → 0 < n
    → s ≢ []
    → (chunk_ : Bytes) × (s' : Bytes) × (chunk k n s ≡ (chunk_, none, s'))
      × (0 < length chunk_)
      × (length chunk_ ≤ n)
      × (s ≡ chunk_ ++ s')
chunk_some k n [] h ne = absurd (ne refl)
chunk_some k n (c ∷ s) h ne =
    let m = min n (suc k) in
    let l = length-take_bytes m (c ∷ s) in
    (
      take m (c ∷ s),
      drop m (c ∷ s),
      refl,
      omega (arith, l),
      omega (arith, l),
      sym (take-append-drop m (c ∷ s)),
    )

pub chunk_end :
    (k n : ℕ) (s : Bytes)
    → 0 < n
    → s ≡ []
    → (e : Error) × (s' : Bytes) × (chunk k n s ≡ ([], some e, s'))
chunk_end k n [] h e = (eof, [], refl)
chunk_end k n (c ∷ s) h e = cc

abbrev pub memory : ℕ → IoReader
memory k = record {
  State = Bytes;
  read = chunk k;
  content = λ s. s;
  read_some = chunk_some k;
  read_end = chunk_end k;
}

abbrev pub memory_reader : (k size : ℕ) → Bytes → Reader (memory k)
memory_reader k size s = record { pending = []; cap = size; err = none; rd = s }

pub memory_reader-Delivers :
    (k size : ℕ) (s : Bytes) → 0 < size → Delivers (memory k) (memory_reader k size s) s
memory_reader-Delivers k size s h = record {
  healthy = refl;
  flows = refl;
  fits = omega arith;
  room = h;
}
