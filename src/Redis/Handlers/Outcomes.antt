-- ===== src/Redis/Handlers/Outcomes.antt =====
-- No request makes a handler read past the end of a slice, and a split covers its request.
use samaritan.Prelude.{
  ◌%◌, ◌<◌, ◌≡◌, refl, ap, sym, subst, ◌∙◌, true, false, some, some-injective, List, [], ◌∷◌, Bytes,
  length, All, arith,
}
use samaritan.Redis.Resp.{RespValue, text, bytes_of, arr, elements}
use samaritan.Redis.Request.Split.{
  Kind, mset, mget, sum_result, is_valid, is_refused, split, set_body, with_body, mset_bodies,
  key_bodies,
}
use samaritan.Redis.Request.Parts.{arguments, split_covers}
use samaritan.Redis.Handlers.Table.{
  Handler, handle_sum_result_command, handle_mset, handle_mget, find_handler,
}
use samaritan.Redis.Handlers.Defs.{
  Env, splits, text_at, with_keys, by_bodies, handle_split, handle, by_command, handle_request,
}

-- A request with a routing key, its first argument.
abbrev pub HasKey : RespValue → Type 0
HasKey b = (t : Bytes) × (text_at (elements (arr b)) 1 ≡ some t)

abbrev pub IsKeyed : Bytes × RespValue → Type 0
IsKeyed (key, b) = text_at (elements (arr b)) 1 ≡ some key

abbrev pub bodies : List (Bytes × RespValue) → List RespValue
bodies [] = []
bodies ((key, b) ∷ l) = b ∷ bodies l

with_keys_lem :
    (bs : List RespValue)
    → All HasKey bs
    → (l : List (Bytes × RespValue)) × (with_keys bs ≡ some l) × (bodies l ≡ bs) × All IsKeyed l
unfolding with_keys
with_keys_lem [] h = ([], refl, refl, tt)
with_keys_lem (b ∷ bs) h =
    let (key, e) = h.0 in
    let (l, p, q, all) = with_keys_lem bs h.1 in
    ((key, b) ∷ l, rw (p, e) refl, ap (◌∷◌ b) q, (e, all))

key_bodies-HasKey : (c : RespValue) (args : List RespValue) → All HasKey (key_bodies c args)
key_bodies-HasKey c [] = tt
key_bodies-HasKey c (a ∷ args) = ((bytes_of (text a), refl), key_bodies-HasKey c args)

mset_bodies-HasKey :
    (args : List RespValue)
    → length args % 2 ≡ 0
    → (bs : List RespValue) × (mset_bodies args ≡ some bs) × All HasKey bs
mset_bodies-HasKey [] e = ([], refl, tt)
mset_bodies-HasKey (k ∷ []) e = absurd (omega arith)
mset_bodies-HasKey (k ∷ v ∷ args) e =
    let (bs, p, all) = mset_bodies-HasKey args (omega arith) in
    (set_body k v ∷ bs, ap (with_body (set_body k v)) p, ((bytes_of (text k), refl), all))

split-HasKey :
    (k : Kind) (body : List RespValue)
    → is_refused k (length body) ≡ false
    → (bs : List RespValue) × (split k body ≡ some bs) × All HasKey bs
unfolding split is_refused
split-HasKey mset [] h = ([], refl, tt)
split-HasKey mget [] h = cc
split-HasKey sum_result [] h = cc
split-HasKey mset (c ∷ args) h = mset_bodies-HasKey args (ground arith)
split-HasKey mget (c ∷ args) h = (_, refl, key_bodies-HasKey _ args)
split-HasKey sum_result (c ∷ args) h = (_, refl, key_bodies-HasKey c args)

handle_split_lem :
    (k : Kind) (body : List RespValue)
    → is_refused k (length body) ≡ false
    → (l : List (Bytes × RespValue)) × (handle_split k body ≡ splits k l)
      × (split k body ≡ some (bodies l))
      × All IsKeyed l
unfolding handle_split
handle_split_lem k body h =
    let (bs, made, keys) = split-HasKey k body h in
    let (l, p, q, all) = with_keys_lem bs keys in
    (l, rw (h, made, by_bodies, p) refl, made ∙ ap some (sym q), all)

abbrev pub split_handler : Kind → Handler
split_handler mset = handle_mset
split_handler mget = handle_mget
split_handler sum_result = handle_sum_result_command

handle-split :
    (k : Kind) (env : Env) (v : RespValue)
    → handle (split_handler k) env v ≡ handle_split k (elements (arr v))
unfolding handle
handle-split mset env v = refl
handle-split mget env v = refl
handle-split sum_result env v = refl

-- A valid request of a command whose requests are split, with the number of arguments that the
-- command takes, is split into at least one request. Each has its own first argument for its routing
-- key, and their arguments, one request after the other, are those of the whole.
pub handle_request-split :
    (k : Kind) (env : Env) (v c : RespValue) (args : List RespValue)
    → is_valid v ≡ true
    → elements (arr v) ≡ c ∷ args
    → find_handler (bytes_of (text c)) ≡ some (split_handler k)
    → is_refused k (length (c ∷ args)) ≡ false
    → (l : List (Bytes × RespValue)) × (handle_request env v ≡ splits k l)
      × (arguments (bodies l) ≡ args)
      × All IsKeyed l
      × (0 < length (bodies l))
unfolding handle_request
handle_request-split k env v c args valid body found taken =
    let (l, split_as, split_is, keyed) = handle_split_lem k (c ∷ args) taken in
    let (bs, made, covered, _, some_body) = split_covers k c args taken in
    let same : bs ≡ bodies l = some-injective bs (bodies l) (sym made ∙ split_is) in
    (
      l,
      rw (valid, body, found, by_command)
          (handle-split k env v ∙ ap (handle_split k) body ∙ split_as),
      ap arguments (sym same) ∙ covered,
      keyed,
      subst (λ (bs : List RespValue). 0 < length bs) same some_body,
    )
