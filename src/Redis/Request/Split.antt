-- ===== src/Redis/Request/Split.antt =====
-- Splitting MSET, MGET and the commands whose results are summed, and merging the responses.
use samaritan.Prelude.{
  ℕ, suc, ◌≡◌, ◌+◌, ◌-◌, ◌%◌, ◌^◌, Bool, true, false, ◌&&◌, Option, none, some, List, [], ◌∷◌, ◌++◌,
  map, bytes, length, get_elem?, set, not, ◌||◌, ◌==◌, ltb, if◌then◌else◌, ℤ, pos, negsuc, ◌+ℤ◌,
}
use samaritan.Strconv.{format_uint}
use samaritan.Redis.Resp.{
  integer, bulk_string, array, arr, elements, RespValue, typ, int, new_error, new_simple_string,
  new_bulk_string, new_integer, made_array,
}

-- rawRequest.IsValid: a non-empty array of bulk strings.
abbrev all_bulk : List RespValue → Bool
all_bulk [] = true
all_bulk (v ∷ vs) = elim (typ v) [ bulk_string ↦ all_bulk vs | _ ↦ false ]

unfoldable pub is_valid : RespValue → Bool
is_valid b = elim (typ b) [
  | array ↦ not (length (elements (arr b)) == 0) && all_bulk (elements (arr b))
  | _ ↦ false
]

-- int64 wraps around.
unfoldable pub wrap_int64 : ℤ → ℤ
wrap_int64 (pos n) = let m = n % 2 ^ 64 in if ltb m (2 ^ 63) then pos m else negsuc (2 ^ 64 - 1 - m)
wrap_int64 (negsuc n) =
    let m = n % 2 ^ 64 in if ltb m (2 ^ 63) then negsuc m else pos (2 ^ 64 - 1 - m)

pub data Kind : Type 0 where
  mset mget sum_result : Kind

-- Whether newMSetRequest, newMGetRequest and newSumResultRequest refuse a body of n elements.
abbrev pub mset_refused : ℕ → Bool
mset_refused n = (n == 1) || not (n % 2 == 1)

abbrev pub mget_refused : ℕ → Bool
mget_refused n = ltb n 2

abbrev pub sum_result_refused : ℕ → Bool
sum_result_refused n = ltb n 2

unfoldable pub is_refused : Kind → ℕ → Bool
is_refused mset n = mset_refused n
is_refused mget n = mget_refused n
is_refused sum_result n = sum_result_refused n

abbrev pub set_body : RespValue → RespValue → RespValue
set_body k v = made_array (new_bulk_string (bytes "set") ∷ k ∷ v ∷ [])

abbrev pub with_body : RespValue → Option (List RespValue) → Option (List RespValue)
with_body b none = none
with_body b (some bs) = some (b ∷ bs)

-- The bodies that Split makes. The loop of msetRequest takes the arguments two by two; none is the
-- panic on the value of a last odd one, which is out of range.
abbrev pub mset_bodies : List RespValue → Option (List RespValue)
mset_bodies [] = some []
mset_bodies (k ∷ []) = none
mset_bodies (k ∷ v ∷ rest) = with_body (set_body k v) (mset_bodies rest)

-- The other loops take them one by one. An empty body would ask for a slice of a capacity below 0.
abbrev pub key_bodies : RespValue → List RespValue → List RespValue
key_bodies command args = map (λ k. made_array (command ∷ k ∷ [])) args

abbrev pub mget_bodies : List RespValue → List RespValue
mget_bodies args = key_bodies (new_bulk_string (bytes "get")) args

abbrev pub sum_result_bodies : RespValue → List RespValue → List RespValue
sum_result_bodies c args = key_bodies c args

unfoldable pub split : Kind → List RespValue → Option (List RespValue)
split mset [] = some []
split mget [] = none
split sum_result [] = none
split mset (c ∷ args) = mset_bodies args
split mget (c ∷ args) = some (mget_bodies args)
split sum_result (c ∷ args) = some (sum_result_bodies c args)

-- The loop of sumResultRequest.setResponse: the total and the number of errors.
unfoldable pub sum_loop : ℤ → ℕ → List RespValue → ℤ × ℕ
unfolding wrap_int64
sum_loop total errors [] = (total, errors)
sum_loop total errors (v ∷ vs) = elim (typ v) [
  | integer ↦ sum_loop (wrap_int64 (total +ℤ int v)) errors vs
  | _ ↦ sum_loop total (suc errors) vs
]

unfoldable pub sum_response : List RespValue → RespValue
unfolding sum_loop
sum_response vs =
    let (total, errors) = sum_loop (pos 0) 0 vs in
    if errors == 0
    then new_integer total
    else new_error (bytes "finished with " ++ (format_uint errors ++ bytes " error(s)"))

-- The response to the raw request, from the responses of its children.
abbrev pub mset_response : List RespValue → RespValue
mset_response vs = new_simple_string (bytes "OK")

abbrev pub mget_response : List RespValue → RespValue
mget_response vs = made_array vs

unfoldable pub merge : Kind → List RespValue → RespValue
unfolding sum_response
merge mset vs = mset_response vs
merge mget vs = mget_response vs
merge sum_result vs = sum_response vs

-- A child of a request: waiting for its response, given it, and done with its hook too.
pub data Child : Type 0 where
  waiting : Child
  responded done : RespValue → Child

-- A request that is split: its children, the count of those to wait for, an int32 of which the low
-- 32 bits stand here, and the responses that the raw request was given.
pub record SplitRequest : Type 0 where
  pub kind : Kind
  pub children : List Child
  pub child_wait : ℕ
  pub answers : List RespValue

-- After Split, with a body for each child.
unfoldable pub sent : Kind → List RespValue → SplitRequest
sent k bodies = record {
  kind = k;
  children = map (λ b. waiting) bodies;
  child_wait = length bodies % 2 ^ 32;
  answers = [];
}

-- The children's responses, of which none is nil when this is read.
abbrev pub responses : List Child → List RespValue
responses [] = []
responses (waiting ∷ cs) = responses cs
responses (responded v ∷ cs) = v ∷ responses cs
responses (done v ∷ cs) = v ∷ responses cs

-- SetResponse of the i-th child, up to its hook.
unfoldable pub set_response : SplitRequest → ℕ → RespValue → SplitRequest
set_response r i v = record r { children = set r.children i (responded v) }

-- Its hook, onChildDone: the count goes down, and whoever takes it to 0 answers the raw request.
unfoldable pub on_child_done : SplitRequest → ℕ → RespValue → SplitRequest
unfolding merge
on_child_done r i v =
    let wait = (r.child_wait + 0xffff_ffff) % 2 ^ 32 in
    record r {
      children = set r.children i (done v);
      child_wait = wait;
      answers =
          if wait == 0 then r.answers ++ merge r.kind (responses r.children) ∷ [] else r.answers;
    }

-- A run in which the i-th child gets the i-th of the responses vs, in any order and interleaved in
-- any way. Its index counts the steps.
pub data Run (k : Kind) (vs : List RespValue) : ℕ → SplitRequest → Type 0 where
  start : (bodies : List RespValue) → length bodies ≡ length vs → Run k vs 0 (sent k bodies)
  respond :
      {n : ℕ} {r : SplitRequest} (i : ℕ) (v : RespValue)
      → Run k vs n r
      → get_elem? r.children i ≡ some waiting
      → get_elem? vs i ≡ some v
      → Run k vs (suc n) (set_response r i v)
  finish :
      {n : ℕ} {r : SplitRequest} (i : ℕ) (v : RespValue)
      → Run k vs n r
      → get_elem? r.children i ≡ some (responded v)
      → Run k vs (suc n) (on_child_done r i v)
