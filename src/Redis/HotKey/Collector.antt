-- ===== src/Redis/HotKey/Collector.antt =====
-- The collector of proc/redis/hotkey/collector.go: every period it takes the hits from the counters
-- and keeps the hottest keys. The orders in which Go iterates over its maps are arguments, and so are
-- the time, in minutes, and the random numbers, which each key's counter draws of its own: `luck i v`
-- tells whether a counter's i-th draw is below the probability that the value v has.
use samaritan.Prelude.{
  ℕ, zero, suc, ◌+◌, ◌-◌, ◌/◌, ◌%◌, ◌^◌, Bool, Option, none, some, List, [], ◌∷◌, ◌++◌, Bytes,
  length, take, drop, leb, ltb, ◌==◌, if◌then◌else◌,
}
use samaritan.Prelude.Assoc.{lookup, insert, delete}

-- `lut` is the minute of the last update, `val` a uint8.
pub record LogCounter : Type 0 where
  pub lut : ℕ
  pub val : ℕ

unfoldable pub new_log_counter : LogCounter
new_log_counter = record { lut = 0; val = 0 }

-- The loop of ReaptIncr with n rounds left.
unfoldable pub repeat_loop : (ℕ → ℕ → Bool) → ℕ → ℕ → ℕ
repeat_loop luck zero v = v
repeat_loop luck (suc n) v =
    let rest = repeat_loop luck n (if luck n v then v + 1 else v) in if v == 255 then v else rest

unfoldable pub repeat_incr : (ℕ → ℕ → Bool) → ℕ → ℕ → LogCounter → LogCounter
unfolding repeat_loop
repeat_incr luck now times c = record { lut = now; val = repeat_loop luck times c.val }

unfoldable pub halve : ℕ → LogCounter → LogCounter
halve now c = if c.val == 0 then c else record { lut = now; val = c.val / 2 }

pub record HotKey : Type 0 where
  pub name : Bytes
  pub counter : LogCounter

-- sort.Search: the first place whose key has no greater value.
unfoldable pub search_place : ℕ → List HotKey → ℕ
search_place v [] = 0
search_place v (k ∷ ks) =
    let rest = suc (search_place v ks) in if leb k.counter.val v then 0 else rest

-- The key at place i, with the keys from there on moved by one: the last one falls out of the slice.
unfoldable pub shift_in : ℕ → HotKey → List HotKey → List HotKey
shift_in i key ks = take i ks ++ key ∷ take (length ks - i - 1) (drop i ks)

-- sortedHotKeys.Insert. The number of keys is compared as a uint8.
unfoldable pub insert_key : ℕ → HotKey → List HotKey → List HotKey
unfolding search_place shift_in
insert_key capacity key ks =
    let i = search_place key.counter.val ks in
    let longer = if ltb (length ks % 2 ^ 8) capacity then ks ++ key ∷ [] else ks in
    if ltb i (length ks) then shift_in i key longer else longer

unfoldable pub insert_all : ℕ → List HotKey → List HotKey → List HotKey
insert_all capacity [] res = res
insert_all capacity (k ∷ ks) res = insert_all capacity ks (insert_key capacity k res)

abbrev pub hits_of : Option ℕ → ℕ
hits_of none = 0
hits_of (some n) = n

-- The hits of a period, added up over the counters; a uint64.
unfoldable pub add_hits : List (Bytes × ℕ) → List (Bytes × ℕ) → List (Bytes × ℕ)
add_hits [] acc = acc
add_hits ((k, n) ∷ l) acc = add_hits l (insert k ((hits_of (lookup k acc) + n) % 2 ^ 64) acc)

unfoldable pub accessed : List (List (Bytes × ℕ)) → List (Bytes × ℕ) → List (Bytes × ℕ)
accessed [] acc = acc
accessed (l ∷ ls) acc = accessed ls (add_hits l acc)

unfoldable pub current : List HotKey → List (Bytes × LogCounter) → List (Bytes × LogCounter)
current [] m = m
current (k ∷ ks) m = current ks (insert k.name k.counter m)

-- The hot keys with the hits of the period counted, and the hits of the other keys.
unfoldable pub old_keys :
    (Bytes → ℕ → ℕ → Bool)
    → ℕ
    → List (Bytes × LogCounter)
    → List (Bytes × ℕ)
    → List HotKey × List (Bytes × ℕ)
old_keys luck now [] hits = ([], hits)
old_keys luck now ((k, c) ∷ m) hits =
    let key : HotKey = record {
      name = k;
      counter = repeat_incr (luck k) now (hits_of (lookup k hits)) c;
    } in
    let (ks, left) = old_keys luck now m (delete k hits) in (key ∷ ks, left)

unfoldable pub new_keys : (Bytes → ℕ → ℕ → Bool) → ℕ → List (Bytes × ℕ) → List HotKey
new_keys luck now [] = []
new_keys luck now ((k, n) ∷ hits) =
    record { name = k; counter = repeat_incr (luck k) now n new_log_counter }
    ∷ new_keys luck now hits

-- collect, after the counters were latched.
unfoldable pub collect :
    (List (Bytes × LogCounter) → List (Bytes × LogCounter))
    → (List (Bytes × ℕ) → List (Bytes × ℕ))
    → (Bytes → ℕ → ℕ → Bool)
    → ℕ
    → ℕ
    → List (List (Bytes × ℕ))
    → List HotKey
    → List HotKey
collect order_old order_new luck now capacity latched keys =
    let hits = accessed latched [] in
    let (old, left) = old_keys luck now (order_old (current keys [])) hits in
    if length hits == 0
    then keys
    else insert_all capacity (new_keys luck now (order_new left)) (insert_all capacity old [])

unfoldable pub halve_stale : ℕ → List HotKey → List HotKey
unfolding halve
halve_stale now [] = []
halve_stale now (k ∷ ks) =
    record k { counter = if ltb k.counter.lut now then halve now k.counter else k.counter }
    ∷ halve_stale now ks

unfoldable pub drop_zero : List HotKey → List HotKey
drop_zero [] = []
drop_zero (k ∷ ks) = let rest = drop_zero ks in if k.counter.val == 0 then rest else k ∷ rest

unfoldable pub evict_stale : ℕ → List HotKey → List HotKey
unfolding halve_stale drop_zero
evict_stale now keys = drop_zero (halve_stale now keys)
