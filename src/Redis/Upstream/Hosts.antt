-- ===== src/Redis/Upstream/Hosts.antt =====
-- The upstream as a whole: its hosts, its clients and the trigger of the slots' refresh, under
-- requests and changes of the hosts.
use samaritan.Prelude.{ℕ, Bool, true, Option, none, some, List, [], ◌∷◌, ◌++◌, Bytes, if◌then◌else◌}
use samaritan.Prelude.Assoc.{lookup}
use samaritan.Host.Defs.{Heap, State, add, remove, replace_all}
use samaritan.Redis.Resp.{RespValue}
use samaritan.Redis.Upstream.Route.{ReadStrategy, Slots, choose_host}
use samaritan.Redis.Upstream.Clients.{
  Dial, Got, client, upstream_exited, Clients, get_client, reset_all_clients,
}

-- `refresh` tells whether slotsRefreshCh, a channel of one place, holds a signal; `stopped` are the
-- clients whose Stop was called.
pub record Upstream : Type 0 where
  pub hosts : State
  pub clients : Clients
  pub refresh : Bool
  pub stopped : List ℕ

unfoldable pub trigger_slots_refresh : Upstream → Upstream
trigger_slots_refresh u = record u { refresh = true }

-- Where MakeRequest and MakeRequestToHost leave a request: answered with an error, also for want of a
-- host, or sent to a client.
pub data Made : Type 0 where
  no_available_host : Made
  answered : Got → Made
  sent_to : ℕ → Made

abbrev pub made : Got → Made
made (client c) = sent_to c
made g = answered g

unfoldable pub make_request_to_host : Dial → Bytes → Upstream → Made × Upstream
make_request_to_host d addr u =
    if u.clients.quit
    then (answered upstream_exited, u)
    else (let (g, cs) = get_client d addr u.clients in (made g, record u { clients = cs }))

-- What a request finds: the host that randomHost would return, the time, and what a dial of each
-- address would come to.
pub record Moment : Type 0 where
  pub random : Option Bytes
  pub now : ℕ
  pub dial : Bytes → Dial

unfoldable pub make_request :
    ReadStrategy → Slots → Moment → Bytes → List RespValue → Upstream → Made × Upstream
make_request strategy slots m routing_key body u =
    elim (choose_host strategy slots m.random m.now routing_key body) [
      | none ↦ (no_available_host, u)
      | some addr ↦ make_request_to_host (m.dial addr) addr u
    ]

abbrev pub all_clients : List (Bytes × ℕ) → List ℕ
all_clients [] = []
all_clients ((a, c) ∷ m) = c ∷ all_clients m

unfoldable pub on_host_add : List ℕ → Upstream → Upstream
unfolding trigger_slots_refresh
on_host_add [] u = u
on_host_add (p ∷ ps) u =
    trigger_slots_refresh
      (record u { hosts = record (u.hosts) { set = add u.hosts.heap u.hosts.set (p ∷ ps) } })

-- The clients of the hosts that are removed, as the map was before.
abbrev pub found : Option ℕ → List ℕ → List ℕ
found none l = l
found (some c) l = c ∷ l

unfoldable pub clients_of : Heap → Clients → List ℕ → List ℕ
clients_of h cs [] = []
clients_of h cs (p ∷ ps) = found (lookup (h p).addr cs.by_addr) (clients_of h cs ps)

unfoldable pub on_host_remove : List ℕ → Upstream → Upstream
unfolding trigger_slots_refresh
on_host_remove [] u = u
on_host_remove (p ∷ ps) u = trigger_slots_refresh (record u {
  hosts = remove u.hosts (p ∷ ps);
  stopped = u.stopped ++ clients_of u.hosts.heap u.clients (p ∷ ps);
})

unfoldable pub on_host_replace : List ℕ → Upstream → Upstream
unfolding trigger_slots_refresh
on_host_replace [] u = u
on_host_replace (p ∷ ps) u = trigger_slots_refresh (record u {
  hosts = replace_all u.hosts (p ∷ ps);
  clients = reset_all_clients u.clients;
  stopped = u.stopped ++ all_clients u.clients.by_addr;
})
