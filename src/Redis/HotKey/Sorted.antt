-- ===== src/Redis/HotKey/Sorted.antt =====
-- The collector keeps the hottest of the keys that it is given.
use samaritan.Prelude.{
  none, some, ℕ, ◌≤◌, ◌≡◌, refl, List, [], ◌∷◌, length, drop, leb, if◌then◌else◌, All, Bool, Bytes,
}
use mathlib.Core.List.{Perm}
use mathlib.Core.List.Perm
use samaritan.Prelude.Assoc.{lookup}
use samaritan.Redis.HotKey.Collector.{LogCounter, HotKey, hits_of, repeat_incr, new_log_counter}

-- A key ahead of the first whose value is no greater.
abbrev pub put : HotKey → List HotKey → List HotKey
put key [] = key ∷ []
put key (k ∷ ks) =
    let rest = k ∷ put key ks in if leb k.counter.val key.counter.val then key ∷ k ∷ ks else rest

-- All keys in descending order, of which one that comes later goes first among equals.
abbrev pub put_all : List HotKey → List HotKey → List HotKey
put_all [] res = res
put_all (k ∷ ks) res = put_all ks (put k res)

-- The values of the keys do not rise.
abbrev pub Descending : List HotKey → Type 0
Descending [] = Unit
Descending (k ∷ ks) = All (λ j. j.counter.val ≤ k.counter.val) ks × Descending ks

module _ {ℓ} {A : Type ℓ} where
  drop_all : (xs : List A) → drop (length xs) xs ≡ []
  drop_all [] = refl
  drop_all (x ∷ xs) = drop_all xs

abbrev pub Counters : Type 0
Counters = List (Bytes × LogCounter)

-- Every name has one entry at most.
abbrev pub EachOnce : Counters → Type 0
EachOnce [] = Unit
EachOnce ((k, c) ∷ m) = (lookup k m ≡ none) × EachOnce m

module _ (luck : Bytes → ℕ → ℕ → Bool) (now : ℕ) where
  -- An old hot key with all the hits of its name counted, and a key that was not hot.
  abbrev pub counted : List (Bytes × ℕ) → Bytes × LogCounter → HotKey
  counted hits (k, c) = record {
    name = k;
    counter = repeat_incr (luck k) now (hits_of (lookup k hits)) c;
  }

  abbrev pub fresh : Bytes × ℕ → HotKey
  fresh (k, n) = record { name = k; counter = repeat_incr (luck k) now n new_log_counter }

  -- The hits of the names that are not among the counters.
  abbrev pub others : Counters → List (Bytes × ℕ) → List (Bytes × ℕ)
  others cs [] = []
  others cs ((k, n) ∷ hits) =
      let rest = others cs hits in elim (lookup k cs) [ some c ↦ rest | none ↦ (k, n) ∷ rest ]
