-- ===== src/Redis/Request/Tests.antt =====
-- Requests that are split, and the theorems on them at small requests.
use samaritan.Prelude.{
  ℕ, ◌<◌, ◌≤◌, ◌≡◌, refl, some, List, [], ◌∷◌, map, Bytes, bytes, length, All, pos, inr, arith,
}
use samaritan.Redis.Resp.{
  RespValue, typ, error, new_integer, new_error, new_bulk_string, new_null_bulk_string, made_array,
}
use samaritan.Strconv.{format_uint}
use samaritan.Redis.Request.Split.{
  mset, mget, sum_result, split, mget_bodies, merge, SplitRequest, Run, start, respond, finish,
  sent, set_response, on_child_done, is_refused,
}
use samaritan.Redis.Request.Merge.{answered_once}
use samaritan.Redis.Request.Parts.{
  arguments, command_of, child_command, split_covers, sum_results, counts,
}
use samaritan.Redis.Request.Scan.{new_scan_request, on_response}
use samaritan.Prelude.{true, bytes_equal}
use samaritan.Redis.Request.ReadOnly.{is_read_only}
use samaritan.Redis.Request.Cursor.{scan_continues}

-- MGET of two keys, of which the second is not there.
abbrev two_values : List RespValue
two_values = new_bulk_string (bytes "1") ∷ new_null_bulk_string ∷ []

abbrev bodies : List RespValue
bodies = mget_bodies (map new_bulk_string (bytes "a" ∷ bytes "b" ∷ []))

-- The second key's response comes first, and the hooks run in the other order.
abbrev first : RespValue
first = new_bulk_string (bytes "1")

abbrev second : RespValue
second = new_null_bulk_string

abbrev after_responses : SplitRequest
after_responses = set_response (set_response (sent mget bodies) 1 second) 0 first

abbrev finished : SplitRequest
finished = on_child_done (on_child_done after_responses 0 first) 1 second

run : Run mget two_values 4 finished
unfolding sent split set_response on_child_done
run =
    finish 1 second
      (finish 0 first (respond 0 first (respond 1 second (start bodies refl) refl refl) refl refl)
        refl)
      refl

answered_once_example :
    let n : ℕ = 4 in
    (n ≤ 4)
    × (n < 4 → finished.answers ≡ [])
    × (n ≡ 4 → finished.answers ≡ merge mget two_values ∷ [])
answered_once_example =
    answered_once {k = mget} {vs = two_values} {n = 4} {r = finished} (omega arith) (omega arith)
      run

abbrev set_command : RespValue
set_command = new_bulk_string (bytes "mset")

abbrev pairs : List RespValue
pairs = map new_bulk_string (bytes "a" ∷ bytes "1" ∷ bytes "b" ∷ bytes "2" ∷ [])

split_covers_example :
    (bs : List RespValue) × (split mset (set_command ∷ pairs) ≡ some bs)
    × (arguments bs ≡ pairs)
    × All (λ b. command_of b ≡ some (child_command mset set_command)) bs
    × (0 < length bs)
unfolding is_refused
split_covers_example = split_covers mset set_command pairs refl

sum_results_example :
    (merge sum_result (counts (1 ∷ 0 ∷ 1 ∷ [])) ≡ new_integer (pos 2))
    × (typ (merge sum_result (new_integer (pos 1) ∷ new_error (bytes "ERR") ∷ [])) ≡ error)
sum_results_example =
    sum_results (1 ∷ 0 ∷ 1 ∷ []) (new_integer (pos 1) ∷ new_error (bytes "ERR") ∷ []) 1
      (new_error (bytes "ERR")) (omega arith) refl (λ e. cc)

abbrev scan : RespValue
scan = new_bulk_string (bytes "scan")

scan_continues_example :
    (cursor : Bytes) × (on_response
        (record { node_idx = 2; node_cursor = 5 })
        (made_array (new_bulk_string (format_uint 0) ∷ []))
      ≡ some (made_array (new_bulk_string cursor ∷ [])))
    × (new_scan_request (scan ∷ new_bulk_string cursor ∷ [])
        ≡ inr (record { node_idx = 3; node_cursor = 0 }))
scan_continues_example = scan_continues scan 2 5 0 [] (omega arith) (omega arith)

-- GEOADD, which adds members to a key, counts as a command that never modifies keys.
geoadd_read_only : is_read_only (new_bulk_string (bytes "GEOADD") ∷ []) ≡ true
unfolding is_read_only bytes_equal
geoadd_read_only = refl
