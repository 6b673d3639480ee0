-- ===== src/Redis/Handlers/Defs.antt =====
-- handleRequest and the handlers, and the requests that they make of the upstream.
use samaritan.Prelude.{
  ℕ, ◌/◌, ◌%◌, ◌^◌, Option, none, some, List, [], ◌∷◌, ◌++◌, Bytes, bytes, length, get_elem?, ◌⊎◌,
  inl, inr, leb, ltb, if◌then◌else◌, ℤ,
}
use samaritan.Strconv.{format_int, format_uint}
use samaritan.Redis.Resp.{
  RespValue, text, bytes_of, arr, elements, new_error, new_simple_string, new_bulk_string,
  new_array, made_array,
}
use samaritan.Redis.Request.Split.{Kind, mset, mget, sum_result, is_valid, is_refused, split}
use samaritan.Redis.Request.Scan.{
  ScanRequest, ScanError, invalid_request, invalid_cursor, new_scan_request, convert,
}
use samaritan.Redis.Upstream.Route.{ReadStrategy, Slots}
use samaritan.Redis.Upstream.Hosts.{Moment, Made, Upstream, make_request}
use samaritan.Redis.Handlers.Table.{
  Handler, handle_simple_command, handle_sum_result_command, handle_mset, handle_mget, handle_eval,
  handle_scan, handle_hot_key, handle_ping, handle_quit, handle_info, handle_time, handle_select,
  find_handler,
}

-- What the handlers read: the healthy hosts, the hot keys with the values of their counters, the time
-- in seconds and the nanoseconds of its second, and the result of Getegid.
pub record Env : Type 0 where
  pub hosts : List Bytes
  pub hot_keys : List (Bytes × ℕ)
  pub unix_time : ℤ
  pub nanosecond : ℕ
  pub egid : ℤ

-- A request is answered at once, passed on as one request by a key, split into requests by their
-- keys, or sent to a host as a scan. `panics` is an index out of range.
pub data Handled : Type 0 where
  responds : RespValue → Handled
  passes : Bytes → RespValue → Handled
  splits : Kind → List (Bytes × RespValue) → Handled
  scans : ScanRequest → Bytes → List RespValue → Handled
  panics : Handled

abbrev pub invalid : Handled
invalid = responds (new_error (bytes "invalid request"))

-- The text of the i-th element.
abbrev pub text_at : List RespValue → ℕ → Option Bytes
text_at body i = elim (get_elem? body i) [ none ↦ none | some v ↦ some (bytes_of (text v)) ]

-- A request that has n elements at least is passed on by its element i.
abbrev pub pass : ℕ → ℕ → RespValue → Handled
pass n i v =
    if ltb (length (elements (arr v))) n
    then invalid
    else elim (text_at (elements (arr v)) i) [ none ↦ panics | some key ↦ passes key v ]

-- The requests of Split with their routing keys.
abbrev pub with_key :
    RespValue → Option (List (Bytes × RespValue)) → Option Bytes → Option (List (Bytes × RespValue))
with_key b (some l) (some key) = some ((key, b) ∷ l)
with_key b _ _ = none

unfoldable pub with_keys : List RespValue → Option (List (Bytes × RespValue))
with_keys [] = some []
with_keys (b ∷ bs) = with_key b (with_keys bs) (text_at (elements (arr b)) 1)

abbrev pub by_bodies : Kind → Option (List RespValue) → Handled
by_bodies k none = panics
by_bodies k (some bs) = elim (with_keys bs) [ none ↦ panics | some l ↦ splits k l ]

unfoldable pub handle_split : Kind → List RespValue → Handled
unfolding is_refused split with_keys
handle_split k body = if is_refused k (length body) then invalid else by_bodies k (split k body)

abbrev pub scan_error : ScanError → Bytes
scan_error invalid_request = bytes "invalid request"
scan_error invalid_cursor = bytes "invalid cursor"

abbrev pub resp_scan_term : RespValue
resp_scan_term = new_array (new_bulk_string (bytes "0") ∷ new_array [] ∷ [])

-- The number of hosts is cut to a uint16.
abbrev pub to_node : List Bytes → List RespValue → ScanRequest → Handled
to_node hosts body r =
    if leb (length hosts % 2 ^ 16) r.node_idx
    then responds resp_scan_term
    else elim (get_elem? hosts r.node_idx) [
      | none ↦ panics
      | some addr ↦ scans r addr (convert r body)
    ]

abbrev pub by_scan : List Bytes → List RespValue → ScanError ⊎ ScanRequest → Handled
by_scan hosts body (inl e) = responds (new_error (scan_error e))
by_scan hosts body (inr r) = to_node hosts body r

unfoldable pub scan : Env → List RespValue → Handled
scan env body = by_scan env.hosts body (new_scan_request body)

unfoldable pub hot_key_lines : List (Bytes × ℕ) → Bytes
hot_key_lines [] = []
hot_key_lines ((name, value) ∷ keys) =
    bytes "\ncounter: "
    ++ (format_uint value ++ (bytes "  keyname: " ++ (name ++ hot_key_lines keys)))

unfoldable pub hot_key_summary : List (Bytes × ℕ) → Bytes
unfolding hot_key_lines
hot_key_summary keys =
    bytes "Collect "
    ++ (format_uint (length keys) ++ (bytes " keys in this period!" ++ hot_key_lines keys))

-- The response of a handler that asks no host.
abbrev pub time_response : Env → RespValue
time_response env = made_array (
    new_bulk_string (format_int env.unix_time)
    ∷ new_bulk_string (format_uint (env.nanosecond / 1000))
    ∷ [])

abbrev pub info_response : Env → RespValue
info_response env = new_bulk_string (bytes "pid: " ++ (format_int env.egid ++ bytes "\n"))

unfoldable pub handle : Handler → Env → RespValue → Handled
handle handle_simple_command env v = pass 2 1 v
handle handle_sum_result_command env v = handle_split sum_result (elements (arr v))
handle handle_mset env v = handle_split mset (elements (arr v))
handle handle_mget env v = handle_split mget (elements (arr v))
handle handle_eval env v = pass 4 3 v
handle handle_scan env v = scan env (elements (arr v))
handle handle_hot_key env v = responds (new_bulk_string (hot_key_summary env.hot_keys))
handle handle_ping env v = responds (new_simple_string (bytes "PONG"))
handle handle_quit env v = responds (new_simple_string (bytes "OK"))
handle handle_info env v = responds (info_response env)
handle handle_time env v = responds (time_response env)
handle handle_select env v = responds (new_simple_string (bytes "OK"))

abbrev pub unsupported : Bytes → Handled
unsupported cmd = responds (new_error (bytes "ERR unsupported command '" ++ (cmd ++ bytes "'")))

abbrev pub by_command : Env → RespValue → Option Bytes → Handled
by_command env v none = panics
by_command env v (some cmd) = elim (find_handler cmd) [
  | none ↦ unsupported cmd
  | some h ↦ handle h env v
]

unfoldable pub handle_request : Env → RespValue → Handled
unfolding is_valid
handle_request env v =
    if is_valid v then by_command env v (text_at (elements (arr v)) 0) else invalid

-- The loop over the requests of a split, each at a moment of its own. It reads what the upstream is
-- then; `at` gives the moment by the number of requests that are left.
unfoldable pub send_all :
    ReadStrategy → Slots → (ℕ → Moment) → List (Bytes × RespValue) → Upstream → List Made × Upstream
send_all strategy slots at [] u = ([], u)
send_all strategy slots at ((key, b) ∷ l) u =
    let (m, u₁) = make_request strategy slots (at (length l)) key (elements (arr b)) u in
    let (ms, u₂) = send_all strategy slots at l u₁ in (m ∷ ms, u₂)
