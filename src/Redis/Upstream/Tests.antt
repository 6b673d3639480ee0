-- ===== src/Redis/Upstream/Tests.antt =====
-- A small cluster, and the theorems on the upstream at it.
use mathlib.Core.List.{Mem}
use mathlib.Core.List.Perm
use mathlib.Core.Logic.{◌⊎◌, ◌≢◌}
use samaritan.Prelude.{
  ◌≡◌, refl, ap, pos, true, false, none, some, List, [], ◌∷◌, Bytes, bytes, bytes_equal, arith,
}
use samaritan.Prelude.Assoc.{lookup, insert}
use samaritan.Redis.Resp.{RespValue, new_bulk_string}
use samaritan.Strconv.{parse_int, fold_digits}
use samaritan.Redis.Slot.Hashtag.{slot_of}
use samaritan.Redis.Request.ReadOnly.{is_read_only, to_lower}
use samaritan.Redis.Nodes.Segments.{split_by, count_from, parse_segment, parse_cluster_nodes_slot}
use samaritan.Redis.Nodes.Cluster.{
  Instance, Instances, instances, parse_cluster_nodes, parse_lines, parse_line, fields, attach,
  attach_one,
}
use samaritan.Redis.Client.Defs.{handle_resp, redirects}
use samaritan.Redis.Upstream.Route.{
  replica, Slots, choose_host, request, asking, handle_redirection,
}
use samaritan.Redis.Upstream.Targets.{
  MayRead, choose_host-target, redirection, redirection-followed,
}
use samaritan.Redis.Upstream.Slots.{do_slots_refresh, with_outcome, refreshed, lists, update_slots}
use samaritan.Redis.Upstream.Refresh.{write-after_refresh}
use samaritan.Redis.Upstream.Clients.{
  Clients, no_clients, connects, refuses, dial_error, gets, resets, get_client, create_client, run,
}
use samaritan.Redis.Upstream.Single.{get_client-stale}

abbrev node : Instance
node = record {
  id = bytes "m";
  addr = bytes "10.0.0.1:6379";
  master_id = [];
  replicas = (bytes "r", bytes "10.0.0.2:6379") ∷ [];
  slots = [];
}

abbrev all_slots : Slots
all_slots n = some node

abbrev get : List RespValue
get = new_bulk_string (bytes "get") ∷ new_bulk_string (bytes "foo") ∷ []

abbrev put : List RespValue
put =
    new_bulk_string (bytes "set") ∷ new_bulk_string (bytes "foo") ∷ new_bulk_string (bytes "1") ∷ []

choose_host-target_example :
    (a : Bytes) × (choose_host replica all_slots none 12 (bytes "foo") get ≡ some a)
    × (is_read_only get ≡ false → a ≡ bytes "10.0.0.1:6379")
    × (is_read_only get ≡ true → MayRead replica node a)
choose_host-target_example =
    choose_host-target replica all_slots none 12 (bytes "foo") get node refl

redirection-followed_example :
    (to_lower (bytes "MOVED") ≡ bytes "moved"
      → (handle_resp (redirection (bytes "MOVED") (bytes "3999") (bytes "10.0.0.3:6379"))
          ≡ redirects)
        × (handle_redirection (redirection (bytes "MOVED") (bytes "3999") (bytes "10.0.0.3:6379"))
            ≡ some (request (bytes "10.0.0.3:6379") ∷ [])))
    × (to_lower (bytes "MOVED") ≡ bytes "ask"
        → (handle_resp (redirection (bytes "MOVED") (bytes "3999") (bytes "10.0.0.3:6379"))
            ≡ redirects)
          × (handle_redirection (redirection (bytes "MOVED") (bytes "3999") (bytes "10.0.0.3:6379"))
              ≡ some (asking (bytes "10.0.0.3:6379") ∷ request (bytes "10.0.0.3:6379") ∷ [])))
redirection-followed_example =
    redirection-followed (bytes "MOVED") (bytes "3999") (bytes "10.0.0.3:6379") (ground arith)
      (ground arith) (ground arith)

-- One master with a range of slots that holds the slot of foo, which is 12182.
abbrev answer : Bytes
answer = bytes "m 10.0.0.9:6379@16379 master - 0 0 1 connected 12000-12200"

abbrev one_node : Instances
one_node =
    (
      bytes "m",
      record {
        id = bytes "m";
        addr = bytes "10.0.0.9:6379";
        master_id = [];
        replicas = [];
        slots = count_from 201 (pos 12000);
      },
    )
    ∷ []

abbrev in_order : Instances → List Bytes
in_order m = bytes "m" ∷ []

parsed : parse_cluster_nodes in_order answer ≡ instances one_node
unfolding parse_cluster_nodes parse_lines parse_line fields attach attach_one split_by parse_segment
    parse_cluster_nodes_slot lookup insert bytes_equal parse_int fold_digits
parsed = refl

abbrev same_order : Instances → Instances
same_order m = m

refresh :
    do_slots_refresh in_order same_order all_slots (new_bulk_string answer)
    ≡ refreshed (update_slots all_slots one_node)
unfolding do_slots_refresh
refresh = ap (with_outcome same_order all_slots) parsed

write-after_refresh_example :
    ((e : Bytes × Instance) × Mem e one_node
      × (lists (slot_of (bytes "foo")) e.1.slots ≡ true)
      × (choose_host replica (update_slots all_slots one_node) none 12 (bytes "foo") put
          ≡ some e.1.addr))
    ⊎ (((e : Bytes × Instance) → Mem e one_node → lists (slot_of (bytes "foo")) e.1.slots ≢ true)
        × (choose_host replica (update_slots all_slots one_node) none 12 (bytes "foo") put
            ≡ choose_host replica all_slots none 12 (bytes "foo") put))
unfolding is_read_only bytes_equal
write-after_refresh_example =
    write-after_refresh in_order same_order all_slots (update_slots all_slots one_node) answer
      one_node replica none 12 (bytes "foo") put (Perm.refl one_node) parsed refresh refl

abbrev addr : Bytes
addr = bytes "10.0.0.1:6379"

-- The host was down for the first call.
abbrev after_refusal : Clients
after_refusal = (get_client refuses addr no_clients).1

get_client-stale_example :
    get_client connects addr (run (resets ∷ gets connects addr ∷ []) after_refusal)
    ≡ (dial_error, run (resets ∷ gets connects addr ∷ []) after_refusal)
unfolding get_client create_client no_clients lookup insert bytes_equal
get_client-stale_example =
    get_client-stale (resets ∷ gets connects addr ∷ []) addr dial_error after_refusal connects refl
      refl
