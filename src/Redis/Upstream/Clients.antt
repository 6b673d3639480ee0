-- ===== src/Redis/Upstream/Clients.antt =====
-- The clients of an upstream by their addresses: getClient, createClient, removeClient,
-- resetAllClients and Stop. A client is a number. Each operation that changes the map holds
-- clientsMu, and a caller that finds a call in flight waits until it has ended, so that calls are
-- taken one by one.
use samaritan.Prelude.{ℕ, suc, Bool, true, false, none, some, List, [], ◌∷◌, Bytes, if◌then◌else◌}
use samaritan.Prelude.Assoc.{lookup, insert, delete}

-- What a dial and newClient come to, and why no client is returned.
pub data Dial : Type 0 where
  connects refuses : Dial

pub data Got : Type 0 where
  client : ℕ → Got
  upstream_exited dial_error : Got

-- `calls` is createClientCalls, with the results of the calls.
pub record Clients : Type 0 where
  pub by_addr : List (Bytes × ℕ)
  pub calls : List (Bytes × Got)
  pub next : ℕ
  pub quit : Bool

unfoldable pub no_clients : Clients
no_clients = record { by_addr = []; calls = []; next = 0; quit = false }

abbrev pub dial_client : Dial → Bytes → Clients → Got × Clients
dial_client refuses addr s = (dial_error, s)
dial_client connects addr s =
    (client s.next, record s { by_addr = insert addr s.next s.by_addr; next = suc s.next })

unfoldable pub create_client : Dial → Bytes → Clients → Got × Clients
create_client d addr s =
    if s.quit
    then (upstream_exited, s)
    else elim (lookup addr s.by_addr) [ none ↦ dial_client d addr s | some c ↦ (client c, s) ]

abbrev pub new_call : Bytes → Got × Clients → Got × Clients
new_call addr (g, s) = (g, record s { calls = insert addr g s.calls })

unfoldable pub get_client : Dial → Bytes → Clients → Got × Clients
get_client d addr s = elim (lookup addr s.by_addr) [
  | some c ↦ (client c, s)
  | none ↦ elim (lookup addr s.calls) [
    | some g ↦ (g, s)
    | none ↦ new_call addr (create_client d addr s)
  ]
]

-- A client's Start has returned.
unfoldable pub remove_client : Bytes → Clients → Clients
remove_client addr s = record s { by_addr = delete addr s.by_addr }

unfoldable pub reset_all_clients : Clients → Clients
reset_all_clients s = record s { by_addr = [] }

pub data Op : Type 0 where
  gets : Dial → Bytes → Op
  removes : Bytes → Op
  resets stops : Op

unfoldable pub apply : Op → Clients → Clients
apply (gets d addr) s = (get_client d addr s).1
apply (removes addr) s = remove_client addr s
apply resets s = reset_all_clients s
apply stops s = record s { quit = true }

unfoldable pub run : List Op → Clients → Clients
run [] s = s
run (o ∷ os) s = run os (apply o s)
