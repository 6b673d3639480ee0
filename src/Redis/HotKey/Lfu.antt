-- ===== src/Redis/HotKey/Lfu.antt =====
-- The counter counts the hits of the keys that it holds, and evicts one of the least used.
use samaritan.Prelude.{
  ℕ, suc, ◌+◌, ◌%◌, ◌^◌, ◌<◌, ◌≤◌, ◌≡◌, refl, sym, ap, ◌∙◌, subst, inl, inr, Bool-cases, true,
  false, Option, none, some, Option-cases, List, [], ◌∷◌, Bytes, bytes_equal, bytes_equal_refl,
  bytes_equal→eq, length, leb, ◌==◌, if◌then◌else◌, arith,
}
use samaritan.Prelude.Assoc.{
  lookup, insert, delete, lookup-insert, lookup-delete, length-insert, length-insert_known,
  length-delete_known,
}
use native.Mathlib.Decide.{dec_lt}
use samaritan.Redis.HotKey.Counter.{
  FreqNode, Counter, new_counter, next_freq, keep_node, increment, add, evict_from, evict, incr,
}
use samaritan.Redis.HotKey.Chain.{
  one, stands, place, Above, stands-to_next, stands-keep_node, stands-Above, Above-to_next,
  Above-keep_node, Above-move, stands-move,
}

abbrev pub holds : Option ℕ → ℕ → ℕ
holds none g = 0
holds (some f) g = one (f == g)

-- Every item stands once in the chain, in the node of its frequency, and the nodes ascend.
pub record IsLfu (c : Counter) : Type 0 where
  pub in_place : (k : Bytes) (g : ℕ) → stands k g c.chain ≡ holds (lookup k c.items) g
  pub ascending : Above 0 c.chain
  pub bounded : length c.items ≤ c.capacity

-- The hits after the key was counted with n of them.
abbrev pub Counts : Bytes → ℕ → Counter → Counter → Type 0
Counts key n c d =
    (j : Bytes) → lookup j d.items ≡ (if bytes_equal key j then some n else lookup j c.items)

holds-some : (o : Option ℕ) (g : ℕ) → 0 < holds o g → o ≡ some g
holds-some none g h = absurd (omega arith)
holds-some (some f) g h = ground arith

holds_self : (o : Option ℕ) (g : ℕ) → o ≡ some g → holds o g ≡ 1
holds_self none g h = cc
holds_self (some f) g h = ground arith

holds-place :
    (key k : Bytes) (f n g : ℕ) (items : List (Bytes × ℕ))
    → lookup key items ≡ some f
    → holds (lookup k items) g + place key n k g
      ≡ holds (lookup k (insert key n items)) g + place key f k g
holds-place key k f n g items h = elim (Bool-cases (bytes_equal key k)) [
  | inl e ↦
      let same : lookup k items ≡ some f =
        subst (λ (x : Bytes). lookup x items ≡ some f) (bytes_equal→eq key k e) h in
      rw (lookup-insert key k n items, e, same) (omega arith)
  | inr e ↦ rw (lookup-insert key k n items, e) (omega arith)
]

increment-IsLfu :
    (key : Bytes) (f : ℕ) (c : Counter)
    → IsLfu c
    → lookup key c.items ≡ some f
    → f + 1 < 2 ^ 64
    → IsLfu (increment key f c) × Counts key (suc f) c (increment key f c)
unfolding increment
increment-IsLfu key f c v known small =
    let next : next_freq f ≡ suc f = omega arith in
    let here : 0 < stands key f c.chain =
      omega (arith, v.in_place key f, holds_self (lookup key c.items) f known) in
    rw next (
      record {
        in_place = λ k g. omega (
          arith,
          stands-move key 0 f c.chain k g small v.ascending here,
          v.in_place k g,
          holds-place key k f (suc f) g c.items known,
        );
        ascending = Above-move key 0 f c.chain small v.ascending;
        bounded = omega (arith, length-insert_known key (suc f) f c.items known, v.bounded);
      },
      λ j. lookup-insert key j (suc f) c.items,
    )

holds_new :
    (key k : Bytes) (g : ℕ) (items : List (Bytes × ℕ))
    → lookup key items ≡ none
    → holds (lookup k items) g + place key 1 k g ≡ holds (lookup k (insert key 1 items)) g
holds_new key k g items h = elim (Bool-cases (bytes_equal key k)) [
  | inl e ↦
      let same : lookup k items ≡ none =
        subst (λ (x : Bytes). lookup x items ≡ none) (bytes_equal→eq key k e) h in
      rw (lookup-insert key k 1 items, e, same) (omega arith)
  | inr e ↦ rw (lookup-insert key k 1 items, e) (omega arith)
]

add-IsLfu :
    (key : Bytes) (c : Counter)
    → IsLfu c
    → lookup key c.items ≡ none
    → length c.items < c.capacity
    → IsLfu (add key c) × Counts key 1 c (add key c)
unfolding add
add-IsLfu key c v absent room = (
  record {
    in_place = λ k g.
        omega (
          arith,
          stands-to_next key 1 c.chain k g,
          v.in_place k g,
          holds_new key k g c.items absent,
        );
    ascending = Above-to_next key 0 c.chain v.ascending;
    bounded = omega (arith, length-insert key 1 c.items);
  },
  λ j. lookup-insert key j 1 c.items,
)

-- A counter after an item v of frequency f was evicted.
abbrev pub Evicted : Bytes → ℕ → Counter → Counter → Type 0
Evicted v f c d =
    (lookup v c.items ≡ some f)
    × ((j : Bytes) (g : ℕ) → lookup j c.items ≡ some g → f ≤ g)
    × ((j : Bytes) → lookup j d.items ≡ (if bytes_equal v j then none else lookup j c.items))

holds_gone :
    (v k : Bytes) (f g : ℕ) (items : List (Bytes × ℕ))
    → lookup v items ≡ some f
    → holds (lookup k items) g ≡ holds (lookup k (delete v items)) g + place v f k g
holds_gone v k f g items h = elim (Bool-cases (bytes_equal v k)) [
  | inl e ↦
      let same : lookup k items ≡ some f =
        subst (λ (x : Bytes). lookup x items ≡ some f) (bytes_equal→eq v k e) h in
      rw (lookup-delete v k items, e, same) (omega arith)
  | inr e ↦ rw (lookup-delete v k items, e) (omega arith)
]

first :
    (items : List (Bytes × ℕ))
    → 0 < length items
    → (k : Bytes) × (f : ℕ) × (lookup k items ≡ some f)
unfolding lookup
first [] h = absurd (omega arith)
first ((k, f) ∷ m) h = (k, f, rw (bytes_equal_refl k) refl)

-- By the first node of the chain.
evict_first :
    (limit : ℕ) (items : List (Bytes × ℕ)) (f : ℕ) (ks : List Bytes) (ns : List FreqNode)
    → let c : Counter = record {
      capacity = limit;
      items = items;
      chain = record { freq = f; item_list = ks } ∷ ns;
    } in
      IsLfu c
      → (v : Bytes) × (d : Counter) × (evict_from c c.chain ≡ some d)
        × IsLfu d
        × Evicted v f c d
        × (length d.items < length items)
        × (d.capacity ≡ limit)
evict_first limit items f [] ns w = absurd (omega (arith, w.ascending.1))
evict_first limit items f (v ∷ ks) ns w =
    let known : lookup v items ≡ some f =
      holds-some (lookup v items) f (ground (arith, w.in_place v f, bytes_equal_refl v)) in
    (
      v,
      record { capacity = limit; items = delete v items; chain = keep_node f ks ns },
      refl,
      record {
        in_place = λ k g.
            ground
              (arith, stands-keep_node f ks ns k g, w.in_place k g, holds_gone v k f g items known);
        ascending = Above-keep_node 0 f ks ns w.ascending.0 w.ascending.2;
        bounded = omega (arith, length-delete_known v f items known, w.bounded);
      },
      (
        known,
        λ j g e. ground (
          arith,
          w.in_place j g,
          holds_self (lookup j items) g e,
          stands-Above j f g ns w.ascending.2,
        ),
        λ j. lookup-delete v j items,
      ),
      length-delete_known v f items known,
      refl,
    )

evict-IsLfu :
    (c : Counter)
    → IsLfu c
    → 0 < length c.items
    → (v : Bytes) × (f : ℕ) × (d : Counter) × (evict c ≡ some d)
      × IsLfu d
      × Evicted v f c d
      × (length d.items < length c.items)
      × (d.capacity ≡ c.capacity)
unfolding evict
evict-IsLfu c w some_item = by_chain c.chain refl
  where
    by_chain :
        (ns : List FreqNode)
        → c.chain ≡ ns
        → (v : Bytes) × (f : ℕ) × (d : Counter) × (evict c ≡ some d)
          × IsLfu d
          × Evicted v f c d
          × (length d.items < length c.items)
          × (d.capacity ≡ c.capacity)
    by_chain [] e =
        let (k, f, known) = first c.items some_item in
        absurd
          (ground (arith, w.in_place k f, holds_self (lookup k c.items) f known, ap (stands k f) e))
    by_chain (n ∷ ns) e =
        let same : record c { chain = n ∷ ns } ≡ c = λ i. record c { chain = sym e i } in
        let (v, d, done, w', how, less, limit) =
          evict_first c.capacity c.items n.freq n.item_list ns (subst IsLfu (sym same) w) in
        (v, n.freq, d, ap (evict_from c) e ∙ done, w', how, less, limit)

-- A hit of a key: one more for a key that is held, one for a new one, after an eviction if the counter
-- is full.
abbrev pub Hit : Bytes → Counter → Counter → Type 0
Hit key c d =
    ((f : ℕ) → lookup key c.items ≡ some f → Counts key (suc f) c d)
    × (lookup key c.items ≡ none → length c.items < c.capacity → Counts key 1 c d)
    × (lookup key c.items ≡ none
        → length c.items ≡ c.capacity
        → (v : Bytes) × (f : ℕ) × (e : Counter) × Evicted v f c e × Counts key 1 e d)

full :
    (c : Counter)
    → length c.items ≡ c.capacity
    → c.capacity < 2 ^ 8
    → leb c.capacity (length c.items % 2 ^ 8) ≡ true
full c h s = ground arith

room :
    (c : Counter)
    → length c.items < c.capacity
    → c.capacity < 2 ^ 8
    → leb c.capacity (length c.items % 2 ^ 8) ≡ false
room c h s = ground arith

-- Incr on a counter of at least one item and fewer than 256, with hits that do not wrap, panics never
-- and leaves every item once in the chain, in the node of its frequency, with the nodes in ascending
-- order. It counts one more hit of a key that is held, and one of a new key; only if the counter is
-- full a new key takes the place of another, of which no held key has fewer hits. All other keys keep
-- theirs.
pub incr-IsLfu :
    (key : Bytes) (c : Counter)
    → IsLfu c
    → 0 < c.capacity
    → c.capacity < 2 ^ 8
    → ((f : ℕ) → lookup key c.items ≡ some f → f + 1 < 2 ^ 64)
    → (d : Counter) × (incr key c ≡ some d) × IsLfu d × Hit key c d
unfolding incr
incr-IsLfu key c w some_room small no_wrap = elim (Option-cases (lookup key c.items)) [
  | inr (f, known) ↦
      let (w', counts) = increment-IsLfu key f c w known (no_wrap f known) in
      (
        increment key f c,
        rw (known, incr) refl,
        w',
        (
          λ g k. let e : f ≡ g = cc (known, k) in rw (← e) counts,
          λ n. cc (known, n),
          λ n. cc (known, n),
        ),
      )
  | inl absent ↦ elim (dec_lt (length c.items) c.capacity) [
    | yes less ↦
        let (w', counts) = add-IsLfu key c w absent less in
        (
          add key c,
          rw (absent, incr, room c less small) refl,
          w',
          (λ f k. cc (absent, k), λ n l. counts, λ n e. absurd (omega arith)),
        )
    | no not_less ↦
        let equal : length c.items ≡ c.capacity = omega (arith, w.bounded) in
        let (v, f, e, gone, w', how, less, limit) = evict-IsLfu c w (omega arith) in
        let absent' : lookup key e.items ≡ none = how.2 key ∙ ground (arith, absent) in
        let (w'', counts) = add-IsLfu key e w' absent' (omega arith) in
        (
          add key e,
          rw (absent, incr, full c equal small, gone) refl,
          w'',
          (λ g k. cc (absent, k), λ n l. absurd (omega arith), λ n q. (v, f, e, how, counts)),
        )
  ]
]

-- A counter with no item is in order.
pub new_counter-IsLfu : (capacity : ℕ) → IsLfu (new_counter capacity)
unfolding new_counter lookup
new_counter-IsLfu capacity = record {
  in_place = λ k g. refl;
  ascending = tt;
  bounded = omega arith;
}
