-- ===== src/Redis/Request/Parts.antt =====
-- The parts that a request is split into cover it, and how results are summed.
use samaritan.Prelude.{
  ◌*◌, ℕ, zero, suc, ◌+◌, ◌%◌, ◌^◌, ◌<◌, ◌≤◌, ◌≡◌, ◌≢◌, refl, sym, ap, ◌∙◌, false, Option, some,
  some-injective, List, [], ◌∷◌, ◌++◌, map, bytes, length, get_elem?, All, ℤ, pos, ◌+ℤ◌, ◌⊎◌, inl,
  inr, arith,
}
use samaritan.Redis.Resp.{
  integer, error, simple_string, bulk_string, array, other, RespValue, resp_value, typ, int, arr,
  elements, new_bulk_string, new_integer,
}
use samaritan.Redis.Request.Split.{
  Kind, mset, mget, sum_result, is_refused, split, set_body, with_body, mset_bodies, key_bodies,
  merge, sum_loop, sum_response, wrap_int64,
}

-- The command and the arguments of a body.
abbrev pub command_of : RespValue → Option RespValue
command_of b = get_elem? (elements (arr b)) 0

abbrev tail : List RespValue → List RespValue
tail [] = []
tail (v ∷ l) = l

abbrev pub arguments : List RespValue → List RespValue
arguments [] = []
arguments (b ∷ bs) = tail (elements (arr b)) ++ arguments bs

-- The command that the children of a request carry.
abbrev pub child_command : Kind → RespValue → RespValue
child_command mset c = new_bulk_string (bytes "set")
child_command mget c = new_bulk_string (bytes "get")
child_command sum_result c = c

abbrev Carries : RespValue → RespValue → Type 0
Carries c b = command_of b ≡ some c

Whole : RespValue → List RespValue → List RespValue → Type 0
Whole c bodies args = (arguments bodies ≡ args) × All (Carries c) bodies

key_bodies-Whole : (c : RespValue) (args : List RespValue) → Whole c (key_bodies c args) args
unfolding Whole
key_bodies-Whole c [] = (refl, tt)
key_bodies-Whole c (a ∷ args) = let (e, h) = key_bodies-Whole c args in (ap (◌∷◌ a) e, (refl, h))

mset_bodies-Whole :
    (args : List RespValue)
    → length args % 2 ≡ 0
    → (bs : List RespValue) × (mset_bodies args ≡ some bs)
      × Whole (new_bulk_string (bytes "set")) bs args
      × (length args ≤ 2 * length bs)
unfolding Whole
mset_bodies-Whole [] e = ([], refl, (refl, tt), omega arith)
mset_bodies-Whole (k ∷ []) e = absurd (omega arith)
mset_bodies-Whole (k ∷ v ∷ args) e =
    let (bs, made, (e', h), le) = mset_bodies-Whole args (omega arith) in
    (
      set_body k v ∷ bs,
      ap (with_body (set_body k v)) made,
      (ap (λ (l : List RespValue). k ∷ v ∷ l) e', (refl, h)),
      omega arith,
    )

-- A request that is not refused is split, with no access out of range, into at least one child. Every
-- child carries the child's command, and their arguments, one child after the other, are the
-- request's arguments.
pub split_covers :
    (k : Kind) (c : RespValue) (args : List RespValue)
    → is_refused k (length (c ∷ args)) ≡ false
    → (bs : List RespValue) × (split k (c ∷ args) ≡ some bs)
      × (arguments bs ≡ args)
      × All (Carries (child_command k c)) bs
      × (0 < length bs)
unfolding is_refused split Whole
split_covers mset c [] h = cc
split_covers mset c (a ∷ args) h =
    let (bs, made, (e, all), le) = mset_bodies-Whole (a ∷ args) (ground arith) in
    (bs, made, e, all, omega arith)
split_covers mget c [] h = cc
split_covers mget c (a ∷ args) h =
    let (e, all) = key_bodies-Whole (new_bulk_string (bytes "get")) (a ∷ args) in
    (_, refl, e, all, omega arith)
split_covers sum_result c [] h = cc
split_covers sum_result c (a ∷ args) h =
    let (e, all) = key_bodies-Whole c (a ∷ args) in (_, refl, e, all, omega arith)

abbrev pub sum : List ℕ → ℕ
sum [] = 0
sum (n ∷ ns) = n + sum ns

abbrev pub counts : List ℕ → List RespValue
counts ns = map (λ n. new_integer (pos n)) ns

sum_loop-counts :
    (ns : List ℕ) (t : ℕ)
    → t + sum ns < 2 ^ 63
    → sum_loop (pos t) 0 (counts ns) ≡ (pos (t + sum ns), 0)
unfolding sum_loop wrap_int64
sum_loop-counts [] t h = ground arith
sum_loop-counts (n ∷ ns) t h =
    let now : wrap_int64 (pos t +ℤ pos n) ≡ pos (t + n) = ground arith in
    rw now (sum_loop-counts ns (t + n) (omega arith) ∙ ap (λ (m : ℕ). (pos m, 0)) (total))
  where
    total : t + n + sum ns ≡ t + (n + sum ns)
    total = omega arith

-- A round of the loop counts a result or an error.
sum_loop-round :
    (t : ℤ) (e : ℕ) (v : RespValue) (vs : List RespValue)
    → (typ v ≡ integer) × (sum_loop t e (v ∷ vs) ≡ sum_loop (wrap_int64 (t +ℤ int v)) e vs)
      ⊎ (sum_loop t e (v ∷ vs) ≡ sum_loop t (suc e) vs)
unfolding sum_loop
sum_loop-round t e (resp_value integer i x a) vs = inl (refl, refl)
sum_loop-round t e (resp_value simple_string i x a) vs = inr refl
sum_loop-round t e (resp_value error i x a) vs = inr refl
sum_loop-round t e (resp_value bulk_string i x a) vs = inr refl
sum_loop-round t e (resp_value array i x a) vs = inr refl
sum_loop-round t e (resp_value (other b) i x a) vs = inr refl

errors-le : (vs : List RespValue) (t : ℤ) (e : ℕ) → e ≤ (sum_loop t e vs).1
unfolding sum_loop
errors-le [] t e = omega arith
errors-le (v ∷ vs) t e = elim (sum_loop-round t e v vs) [
  | inl (_, p) ↦ omega (arith, errors-le vs (wrap_int64 (t +ℤ int v)) e, ap (λ (r : ℤ × ℕ). r.1) p)
  | inr p ↦ omega (arith, errors-le vs t (suc e), ap (λ (r : ℤ × ℕ). r.1) p)
]

errors-lt :
    (vs : List RespValue) (t : ℤ) (e i : ℕ) (v : RespValue)
    → get_elem? vs i ≡ some v
    → typ v ≢ integer
    → e < (sum_loop t e vs).1
errors-lt [] t e i v g h = cc
errors-lt (x ∷ vs) t e zero v g h = elim (sum_loop-round t e x vs) [
  | inl (q, p) ↦ absurd (h (ap typ (sym (some-injective x v g)) ∙ q))
  | inr p ↦ omega (arith, errors-le vs t (suc e), ap (λ (r : ℤ × ℕ). r.1) p)
]
errors-lt (x ∷ vs) t e (suc i) v g h = elim (sum_loop-round t e x vs) [
  | inl (q, p) ↦
      omega (arith, errors-lt vs (wrap_int64 (t +ℤ int x)) e i v g h, ap (λ (r : ℤ × ℕ). r.1) p)
  | inr p ↦ omega (arith, errors-lt vs t (suc e) i v g h, ap (λ (r : ℤ × ℕ). r.1) p)
]

-- Counts with a total below 2^63 are answered by their total. Responses of which one is no integer
-- are answered by an error.
pub sum_results :
    (ns : List ℕ) (vs : List RespValue) (i : ℕ) (v : RespValue)
    → sum ns < 2 ^ 63
    → get_elem? vs i ≡ some v
    → typ v ≢ integer
    → (merge sum_result (counts ns) ≡ new_integer (pos (sum ns)))
      × (typ (merge sum_result vs) ≡ error)
unfolding merge sum_response
sum_results ns vs i v h g t =
    let some_error = errors-lt vs (pos 0) 0 i v g t in
    let from_zero = sum_loop-counts ns 0 (omega arith) in
    let same : 0 + sum ns ≡ sum ns = omega arith in
    (rw (from_zero, same) refl, ground (arith, some_error))
