-- ===== src/Redis/Request/Cursor.antt =====
-- Cursors of SCAN: what the client is given continues the scan.
use samaritan.Prelude.{
  ℕ, ◌+◌, ◌*◌, ◌%◌, ◌^◌, ◌<◌, ◌≡◌, refl, ap, ap₂, ◌∙◌, inr, some, List, [], ◌∷◌, Bytes, ◌==◌,
  if◌then◌else◌, pos, arith,
}
use samaritan.Strconv.{format_uint, format_int, parse_int-format_int}
use samaritan.Redis.Slot.Bits.{bit_and-ones, bit_or-add}
use samaritan.Redis.Codec.Btoi.{btoi64, btoi64-eq-parse_int}
use samaritan.Redis.Resp.{RespValue, new_bulk_string, made_array}
use samaritan.Redis.Request.Scan.{
  ScanRequest, parse_cursor, gen_cursor, new_scan_request, next_cursor, on_first, on_response,
}

gen_cursor_lem : (i c : ℕ) → i < 2 ^ 16 → c < 2 ^ 48 → gen_cursor i c ≡ i * 2 ^ 48 + c
unfolding gen_cursor
gen_cursor_lem i c h lt =
    let fits : i * 2 ^ 48 % 2 ^ 64 ≡ i * 2 ^ 48 = omega arith in rw fits (bit_or-add 48 i c lt)

-- A cursor made of the index of a node and a cursor of that node that fits 48 bits is taken apart
-- into the two.
pub parse_cursor-gen_cursor :
    (i c : ℕ) → i < 2 ^ 16 → c < 2 ^ 48 → parse_cursor (gen_cursor i c) ≡ (i, c)
unfolding parse_cursor
parse_cursor-gen_cursor i c h lt =
    let e = gen_cursor_lem i c h lt in
    let low = bit_and-ones 48 (i * 2 ^ 48 + c) in
    rw e (ap₂ (λ (x y : ℕ). (x, y)) (omega arith) (low ∙ omega arith))

btoi64-format_uint : (n : ℕ) → n < 2 ^ 63 → btoi64 (format_uint n) ≡ some (pos n)
unfolding format_int
btoi64-format_uint n h =
    btoi64-eq-parse_int (format_uint n) ∙ parse_int-format_int (pos n) (omega arith)

-- The node that a scan goes on with.
abbrev pub next_node : ℕ → ℕ → ℕ
next_node i c = if c == 0 then i + 1 else i

next_cursor_lem :
    (i n c : ℕ)
    → i + 1 < 2 ^ 15
    → c < 2 ^ 48
    → next_cursor (record { node_idx = i; node_cursor = n }) (format_uint c)
      ≡ some (format_uint (gen_cursor (next_node i c) c))
unfolding next_cursor
next_cursor_lem i n c h lt =
    let read = btoi64-format_uint c (omega arith) in
    let same : c % 2 ^ 64 ≡ c = omega arith in
    let small : (i + 1) % 2 ^ 16 ≡ i + 1 = omega arith in rw (read, next_cursor, same, small) refl

read_back :
    (command : RespValue) (i c : ℕ)
    → i < 2 ^ 15
    → c < 2 ^ 48
    → new_scan_request (command ∷ new_bulk_string (format_uint (gen_cursor i c)) ∷ [])
      ≡ inr (record { node_idx = i; node_cursor = c })
unfolding new_scan_request
read_back command i c h lt =
    let e = gen_cursor_lem i c (omega arith) lt in
    let read = btoi64-format_uint (gen_cursor i c) (omega arith) in
    let same : gen_cursor i c % 2 ^ 64 ≡ gen_cursor i c = omega arith in
    let parts = parse_cursor-gen_cursor i c (omega arith) lt in
    rw (read, new_scan_request, same, parts) refl

on_first_lem :
    (r : ScanRequest) (t b : Bytes)
    → next_cursor r t ≡ some b
    → on_first r (new_bulk_string t) ≡ new_bulk_string b
on_first_lem r t b e = rw (e, on_first) refl

-- A node of an index below 2^15 - 1 answers SCAN with a cursor below 2^48. The client is given a
-- cursor in its place, and a SCAN with that cursor goes on at the same node with the node's cursor,
-- or, when that is 0, at the next node from 0.
pub scan_continues :
    (command : RespValue) (i n c : ℕ) (rest : List RespValue)
    → i + 1 < 2 ^ 15
    → c < 2 ^ 48
    → (cursor : Bytes) × (on_response
          (record { node_idx = i; node_cursor = n })
          (made_array (new_bulk_string (format_uint c) ∷ rest))
        ≡ some (made_array (new_bulk_string cursor ∷ rest)))
      × (new_scan_request (command ∷ new_bulk_string cursor ∷ [])
          ≡ inr (record { node_idx = next_node i c; node_cursor = c }))
unfolding on_response
scan_continues command i n c rest h lt =
    let next = next_cursor_lem i n c h lt in
    let below : next_node i c < 2 ^ 15 = ground arith in
    (
      format_uint (gen_cursor (next_node i c) c),
      ap (λ (v : RespValue). some (made_array (v ∷ rest))) (on_first_lem _ (format_uint c) _ next),
      read_back command (next_node i c) c below lt,
    )
