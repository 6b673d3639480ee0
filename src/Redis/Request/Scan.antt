-- ===== src/Redis/Request/Scan.antt =====
-- SCAN over the nodes of a cluster: the cursor that the client sees holds the index of a node in its
-- high 16 bits and the node's own cursor below.
use Prim.Native.Nat.{bit_and, bit_or}
use samaritan.Prelude.{
  ℕ, ◌+◌, ◌*◌, ◌/◌, ◌%◌, ◌^◌, ◌-◌, ◌⊎◌, inl, inr, Option, none, some, List, ◌∷◌, Bytes, ◌==◌,
  if◌then◌else◌, ℤ, pos, negsuc,
}
use samaritan.Strconv.{format_uint}
use samaritan.Redis.Codec.Btoi.{btoi64}
use samaritan.Redis.Resp.{array, RespValue, resp_value, text, bytes_of, slice_of, cons}

pub record ScanRequest : Type 0 where
  pub node_idx : ℕ
  pub node_cursor : ℕ

unfoldable pub parse_cursor : ℕ → ℕ × ℕ
parse_cursor cursor = (cursor / 2 ^ 48 % 2 ^ 16, bit_and cursor 0xffff_ffff_ffff)

unfoldable pub gen_cursor : ℕ → ℕ → ℕ
gen_cursor node_idx node_cursor = bit_or (node_idx * 2 ^ 48 % 2 ^ 64) node_cursor

-- uint64(i)
abbrev pub to_uint64 : ℤ → ℕ
to_uint64 (pos n) = n % 2 ^ 64
to_uint64 (negsuc n) = 2 ^ 64 - 1 - n % 2 ^ 64

pub data ScanError : Type 0 where
  invalid_request invalid_cursor : ScanError

-- The request, or what it is refused with.
unfoldable pub new_scan_request : List RespValue → ScanError ⊎ ScanRequest
new_scan_request (command ∷ cursor ∷ rest) = elim (btoi64 (bytes_of (text cursor))) [
  | none ↦ inl invalid_cursor
  | some c ↦
      let (i, n) = parse_cursor (to_uint64 c) in inr (record { node_idx = i; node_cursor = n })
]
new_scan_request _ = inl invalid_request

-- The text of a value, replaced.
abbrev with_text : Bytes → RespValue → RespValue
with_text b (resp_value t i x a) = resp_value t i (some b) a

-- The body that Convert sends to the node.
unfoldable pub convert : ScanRequest → List RespValue → List RespValue
convert r (command ∷ cursor ∷ rest) = command ∷ with_text (format_uint r.node_cursor) cursor ∷ rest
convert r body = body

-- The node's next cursor as the client gets it, if it is a number; node_idx is a uint16.
unfoldable pub next_cursor : ScanRequest → Bytes → Option Bytes
unfolding gen_cursor
next_cursor r t = elim (btoi64 t) [
  | none ↦ none
  | some c ↦ some (
      format_uint (
        gen_cursor (if to_uint64 c == 0 then (r.node_idx + 1) % 2 ^ 16 else r.node_idx)
          (to_uint64 c)))
]

-- Convert's hook on a response. `none`: an array without elements, of which the first is read.
abbrev pub on_first : ScanRequest → RespValue → RespValue
on_first r (resp_value t i x a) = elim (next_cursor r (bytes_of x)) [
  | none ↦ resp_value t i x a
  | some b ↦ resp_value t i (some b) a
]

unfoldable pub on_response : ScanRequest → RespValue → Option RespValue
on_response r (resp_value array i x (slice_of (cons v l))) =
    some (resp_value array i x (slice_of (cons (on_first r v) l)))
on_response r (resp_value array i x a) = none
on_response r v = some v
