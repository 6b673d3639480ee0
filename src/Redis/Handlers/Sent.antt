-- ===== src/Redis/Handlers/Sent.antt =====
-- Where the parts of a request go, through the upstream and its clients.
use samaritan.Prelude.{
  ℕ, ◌≡◌, refl, ap, ◌∙◌, inl, inr, true, false, some, Option-cases, List, [], ◌∷◌, Bytes, length,
  All, arith,
}
use samaritan.Prelude.Assoc.{lookup}
use samaritan.Redis.Resp.{RespValue, text, bytes_of, arr, elements}
use samaritan.Redis.Slot.Hashtag.{slot_of}
use samaritan.Redis.Nodes.Cluster.{Instance}
use samaritan.Redis.Request.ReadOnly.{is_read_only}
use samaritan.Redis.Request.Split.{Kind, is_valid, is_refused}
use samaritan.Redis.Request.Parts.{arguments}
use samaritan.Redis.Upstream.Route.{ReadStrategy, Slots, choose_host}
use samaritan.Redis.Upstream.Targets.{MayRead, choose_host-target}
use samaritan.Redis.Upstream.Clients.{connects, Got, Clients, get_client}
use samaritan.Redis.Upstream.Connected.{IsConnected, Keeps, get_client-IsConnected}
use samaritan.Redis.Upstream.Hosts.{
  Moment, Made, sent_to, made, no_available_host, Upstream, make_request, make_request_to_host,
}
use samaritan.Redis.Handlers.Table.{find_handler}
use samaritan.Redis.Handlers.Defs.{Env, splits, handle_request, send_all}
use samaritan.Redis.Handlers.Outcomes.{IsKeyed, bodies, split_handler, handle_request-split}

-- A request by a key whose slot has an instance is with the client of that instance's master, or, if
-- it is read-only, with that of a host that the read strategy allows.
abbrev pub Goes : ReadStrategy → Slots → Clients → Bytes → List RespValue → Made → Type 0
Goes strategy slots cs key body m =
    (inst : Instance)
    → slots (slot_of key) ≡ some inst
    → (a : Bytes) × (c : ℕ) × (m ≡ sent_to c)
      × (lookup a cs.by_addr ≡ some c)
      × (is_read_only body ≡ false → a ≡ inst.addr)
      × (is_read_only body ≡ true → MayRead strategy inst a)

abbrev pub AllGo : ReadStrategy → Slots → Clients → List (Bytes × RespValue) → List Made → Type 0
AllGo strategy slots cs [] [] = Unit
AllGo strategy slots cs ((key, b) ∷ l) (m ∷ ms) =
    Goes strategy slots cs key (elements (arr b)) m × AllGo strategy slots cs l ms
AllGo strategy slots cs _ _ = ⊥

module _ (strategy : ReadStrategy) (slots : Slots) where
  Goes-Keeps :
      (s t : Clients) (key : Bytes) (body : List RespValue) (m : Made)
      → Keeps s t
      → Goes strategy slots s key body m
      → Goes strategy slots t key body m
  Goes-Keeps s t key body m keeps g inst e =
      let (a, c, sent, here, writes, reads) = g inst e in
      (a, c, sent, keeps a c here, writes, reads)

  running :
      (a : Bytes) (u : Upstream)
      → u.clients.quit ≡ false
      → make_request_to_host connects a u
        ≡ (let r = get_client connects a u.clients in (made r.0, record u { clients = r.1 }))
  unfolding make_request_to_host
  running a u h = ground arith

  -- A request to a host of a connected upstream is with that host's client.
  to_host :
      (a : Bytes) (u : Upstream)
      → IsConnected u.clients
      → (c : ℕ) × (t : Clients) × (make_request_to_host connects a u
          ≡ (sent_to c, record u { clients = t }))
        × (lookup a t.by_addr ≡ some c)
        × IsConnected t
        × Keeps u.clients t
  unfolding make_request_to_host
  to_host a u h =
      let (c, t, got, here, connected, keeps) = get_client-IsConnected a u.clients h in
      (
        c,
        t,
        running a u h.running
            ∙ ap (λ (r : Got × Clients). (made r.0, record u { clients = r.1 })) got,
        here,
        connected,
        keeps,
      )

  request-Goes :
      (mo : Moment) (key : Bytes) (body : List RespValue) (u : Upstream)
      → IsConnected u.clients
      → ((a : Bytes) → mo.dial a ≡ connects)
      → (m : Made) × (t : Clients) × (make_request strategy slots mo key body u
          ≡ (m, record u { clients = t }))
        × IsConnected t
        × Keeps u.clients t
        × Goes strategy slots t key body m
  unfolding make_request
  request-Goes mo key body u h dials =
      elim (Option-cases (choose_host strategy slots mo.random mo.now key body)) [
        | inl no_host ↦ (
          no_available_host,
          u.clients,
          rw (no_host, make_request) refl,
          h,
          λ b c k. k,
          λ inst e. let (a, chosen, _, _) = target inst e in cc (chosen, no_host),
        )
        | inr (a, chosen) ↦
            let (c, t, sent, here, connected, keeps) = to_host a u h in
            (
              sent_to c,
              t,
              rw (chosen, make_request, dials a) sent,
              connected,
              keeps,
              λ inst e.
                  let (b, chosen', writes, reads) = target inst e in
                  let same : b ≡ a = cc (chosen, chosen') in
                  (b, c, refl, rw same here, writes, reads),
            )
      ]
    where
      target :
          (inst : Instance)
          → slots (slot_of key) ≡ some inst
          → (a : Bytes) × (choose_host strategy slots mo.random mo.now key body ≡ some a)
            × (is_read_only body ≡ false → a ≡ inst.addr)
            × (is_read_only body ≡ true → MayRead strategy inst a)
      target inst e = choose_host-target strategy slots mo.random mo.now key body inst e

  send_all-AllGo :
      (at : ℕ → Moment) (l : List (Bytes × RespValue)) (u : Upstream)
      → IsConnected u.clients
      → ((n : ℕ) (a : Bytes) → (at n).dial a ≡ connects)
      → (ms : List Made) × (t : Clients) × (send_all strategy slots at l u
          ≡ (ms, record u { clients = t }))
        × Keeps u.clients t
        × AllGo strategy slots t l ms
  unfolding send_all
  send_all-AllGo at [] u h dials = ([], u.clients, refl, λ b c k. k, tt)
  send_all-AllGo at ((key, b) ∷ l) u h dials =
      let (m, t, first, connected, keeps, goes) =
        request-Goes (at (length l)) key (elements (arr b)) u h (dials (length l)) in
      let (ms, t', rest, keeps', go) =
        send_all-AllGo at l (record u { clients = t }) connected dials in
      (
        m ∷ ms,
        t',
        rw (first, rest) refl,
        λ a c k. keeps' a c (keeps a c k),
        (Goes-Keeps t t' key (elements (arr b)) m keeps' goes, go),
      )

-- A valid MSET, MGET or command whose results are summed, with the number of arguments that it takes,
-- is split into requests whose arguments, one request after the other, are those of the whole, each
-- with its own first argument for its routing key. Where the upstream runs, has a client for every
-- address that it called, and every dial succeeds, each request whose key's slot has an instance ends
-- up with the client of the instance's master, or, if it is read-only, of a host that the read
-- strategy allows.
pub split_request-AllGo :
    (k : Kind) (env : Env) (v c : RespValue) (args : List RespValue) (strategy : ReadStrategy)
    (slots : Slots) (at : ℕ → Moment) (u : Upstream)
    → is_valid v ≡ true
    → elements (arr v) ≡ c ∷ args
    → find_handler (bytes_of (text c)) ≡ some (split_handler k)
    → is_refused k (length (c ∷ args)) ≡ false
    → IsConnected u.clients
    → ((n : ℕ) (a : Bytes) → (at n).dial a ≡ connects)
    → (l : List (Bytes × RespValue)) × (ms : List Made) × (t : Clients) × (handle_request env v
        ≡ splits k l)
      × (arguments (bodies l) ≡ args)
      × All IsKeyed l
      × (send_all strategy slots at l u ≡ (ms, record u { clients = t }))
      × AllGo strategy slots t l ms
split_request-AllGo k env v c args strategy slots at u valid body found taken h dials =
    let (l, handled, covered, keyed, _) =
      handle_request-split k env v c args valid body found taken in
    let (ms, t, sent, _, go) = send_all-AllGo strategy slots at l u h dials in
    (l, ms, t, handled, covered, keyed, sent, go)
