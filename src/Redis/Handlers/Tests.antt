-- ===== src/Redis/Handlers/Tests.antt =====
-- Requests at the handlers, and the theorems on them.
use samaritan.Prelude.{
  ℕ, ◌≡◌, refl, pos, false, none, some, List, [], ◌∷◌, Bytes, bytes, bytes_equal, All,
}
use samaritan.Prelude.Assoc.{lookup}
use samaritan.Host.Defs.{main, new_with_type, new_set}
use samaritan.Redis.Resp.{RespValue, made_array, new_bulk_string, new_simple_string, new_error}
use samaritan.Redis.Nodes.Cluster.{Instance}
use samaritan.Redis.Request.Split.{mset, is_valid, is_refused}
use samaritan.Redis.Request.Parts.{arguments}
use samaritan.Redis.Upstream.Route.{master, Slots}
use samaritan.Redis.Upstream.Clients.{connects, Clients, no_clients}
use samaritan.Redis.Upstream.Connected.{IsConnected}
use samaritan.Redis.Upstream.Hosts.{Moment, Made, Upstream}
use samaritan.Redis.Handlers.Table.{find_handler, handle_mset}
use samaritan.Redis.Handlers.Defs.{Env, responds, passes, splits, handle_request, handle, send_all}
use samaritan.Redis.Handlers.Outcomes.{IsKeyed, bodies}
use samaritan.Redis.Handlers.Sent.{AllGo, split_request-AllGo}

abbrev env : Env
env = record {
  hosts = bytes "10.0.0.1:6379" ∷ [];
  hot_keys = [];
  unix_time = pos 1580000000;
  nanosecond = 123456789;
  egid = pos 1000;
}

abbrev word : Bytes → RespValue
word b = new_bulk_string b

-- MSET foo 1 bar 2
abbrev mset_args : List RespValue
mset_args = word (bytes "foo") ∷ word (bytes "1") ∷ word (bytes "bar") ∷ word (bytes "2") ∷ []

abbrev mset_request : RespValue
mset_request = made_array (word (bytes "MSET") ∷ mset_args)

mset_found : find_handler (bytes "MSET") ≡ some handle_mset
unfolding find_handler bytes_equal
mset_found = refl

pings :
    handle_request env (made_array (word (bytes "Ping") ∷ []))
    ≡ responds (new_simple_string (bytes "PONG"))
unfolding handle_request handle find_handler bytes_equal
pings = refl

gets_key :
    handle_request env (made_array (word (bytes "get") ∷ word (bytes "foo") ∷ []))
    ≡ passes (bytes "foo") (made_array (word (bytes "get") ∷ word (bytes "foo") ∷ []))
unfolding handle_request handle find_handler bytes_equal
gets_key = refl

unknown :
    handle_request env (made_array (word (bytes "KEYS") ∷ []))
    ≡ responds (new_error (bytes "ERR unsupported command 'KEYS'"))
unfolding handle_request handle find_handler bytes_equal
unknown = refl

abbrev node : Instance
node = record {
  id = bytes "m";
  addr = bytes "10.0.0.1:6379";
  master_id = [];
  replicas = [];
  slots = [];
}

abbrev one_node : Slots
one_node n = some node

abbrev now : ℕ → Moment
now n = record { random = none; now = 5; dial = λ a. connects }

abbrev started : Upstream
started = record {
  hosts = record {
    heap = λ n. new_with_type (bytes "10.0.0.1:6379") main;
    set = new_set (λ n. new_with_type (bytes "10.0.0.1:6379") main) (0 ∷ []);
  };
  clients = no_clients;
  refresh = false;
  stopped = [];
}

started-IsConnected : IsConnected started.clients
unfolding no_clients lookup
started-IsConnected = record { running = refl; in_sync = λ a g h. cc }

split_request-AllGo_example :
    (l : List (Bytes × RespValue)) × (ms : List Made) × (t : Clients) × (handle_request env
        mset_request
      ≡ splits mset l)
    × (arguments (bodies l) ≡ mset_args)
    × All IsKeyed l
    × (send_all master one_node now l started ≡ (ms, record started { clients = t }))
    × AllGo master one_node t l ms
unfolding is_valid is_refused
split_request-AllGo_example =
    split_request-AllGo mset env mset_request (word (bytes "MSET")) mset_args master one_node now
      started refl refl mset_found refl started-IsConnected (λ n a. refl)
