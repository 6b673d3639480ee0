-- ===== src/Redis/HotKey/Tests.antt =====
-- A counter of two keys, a collector of two, and the theorems on them.
use samaritan.Prelude.{
  ℕ, ◌≡◌, refl, subst, inl, inr, Bool-cases, bytes_equal→eq, Bool, Option, none, some, List, [],
  ◌∷◌, Bytes, bytes, bytes_equal, ◌==◌, arith,
}
use samaritan.Prelude.Assoc.{lookup, insert, delete}
use samaritan.Redis.HotKey.Counter.{
  Counter, new_counter, incr, increment, add, evict, move, to_next, free_item,
}
use samaritan.Redis.HotKey.Chain.{stands}
use samaritan.Redis.HotKey.Lfu.{IsLfu, Hit, holds, incr-IsLfu}
use samaritan.Redis.HotKey.Collector.{HotKey, evict_stale}

abbrev foo : Bytes
foo = bytes "foo"

abbrev bar : Bytes
bar = bytes "bar"

abbrev baz : Bytes
baz = bytes "baz"

-- Two hits of foo and one of bar.
abbrev two_keys : Counter
two_keys = record {
  capacity = 2;
  items = (foo, 2) ∷ (bar, 1) ∷ [];
  chain =
      record { freq = 1; item_list = bar ∷ [] } ∷ record { freq = 2; item_list = foo ∷ [] } ∷ [];
}

abbrev incr_all : List Bytes → Option Counter → Option Counter
incr_all [] c = c
incr_all (k ∷ ks) none = none
incr_all (k ∷ ks) (some c) = incr_all ks (incr k c)

counted_hits : incr_all (foo ∷ bar ∷ foo ∷ []) (some (new_counter 2)) ≡ some two_keys
unfolding new_counter incr increment add move to_next free_item lookup insert bytes_equal
counted_hits = refl

-- A third key takes the place of bar.
evicted :
    incr baz two_keys
    ≡ some (record {
      capacity = 2;
      items = (foo, 2) ∷ (baz, 1) ∷ [];
      chain =
          record { freq = 1; item_list = baz ∷ [] }
          ∷ record { freq = 2; item_list = foo ∷ [] }
          ∷ [];
    })
unfolding incr increment add evict move to_next free_item lookup insert delete bytes_equal
evicted = refl

-- A counter without room panics at its first key.
no_room : incr foo (new_counter 0) ≡ none
unfolding new_counter incr evict lookup
no_room = refl

two_keys_in_place :
    (k : Bytes) (g : ℕ) → stands k g two_keys.chain ≡ holds (lookup k two_keys.items) g
unfolding lookup bytes_equal
two_keys_in_place k g = elim (Bool-cases (bytes_equal foo k)) [
  | inl e ↦
      subst (λ (x : Bytes). stands x g two_keys.chain ≡ holds (lookup x two_keys.items) g)
        (bytes_equal→eq foo k e) (ground arith)
  | inr e ↦ rw e (ground arith)
]

two_keys-IsLfu : IsLfu two_keys
two_keys-IsLfu = record {
  in_place = two_keys_in_place;
  ascending = omega arith;
  bounded = omega arith;
}

incr-IsLfu_example : (d : Counter) × (incr baz two_keys ≡ some d) × IsLfu d × Hit baz two_keys d
unfolding lookup bytes_equal
incr-IsLfu_example = incr-IsLfu baz two_keys two_keys-IsLfu (omega arith) (omega arith) (λ f k. cc)

abbrev always : Bytes → ℕ → ℕ → Bool
always k i v = v == 0

abbrev hits : List (List (Bytes × ℕ))
hits = ((foo, 2) ∷ (bar, 1) ∷ []) ∷ ((foo, 1) ∷ []) ∷ []

-- Of two hot keys the first was updated a minute ago and the second now: it is halved alone, and the
-- keys are out of order.
abbrev key_of : Bytes → ℕ → ℕ → HotKey
key_of n m v = record { name = n; counter = record { lut = m; val = v } }

out_of_order :
    evict_stale 7 (key_of foo 6 10 ∷ key_of bar 7 8 ∷ []) ≡ key_of foo 7 5 ∷ key_of bar 7 8 ∷ []
unfolding evict_stale
out_of_order = refl
