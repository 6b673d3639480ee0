-- ===== src/Redis/Upstream/Single.antt =====
-- What getClient returns, now and later.
use samaritan.Prelude.{
  ℕ, suc, ◌≡◌, refl, ap, ◌∙◌, inl, inr, false, Bool-cases, none, some, Option-cases, List, [], ◌∷◌,
  Bytes, bytes_equal, bytes_equal→eq, arith,
}
use samaritan.Prelude.Assoc.{lookup, insert, lookup-insert, lookup-delete}
use samaritan.Redis.Upstream.Clients.{
  Dial, connects, refuses, Got, client, Clients, create_client, new_call, get_client, remove_client,
  reset_all_clients, Op, gets, removes, resets, stops, apply, run,
}

-- The upstream has called createClient for the address, with result g, and has no client for it now.
pub record HasCalled (addr : Bytes) (g : Got) (s : Clients) : Type 0 where
  pub no_client : lookup addr s.by_addr ≡ none
  pub call : lookup addr s.calls ≡ some g

create_client-keeps :
    (d : Dial) (a addr : Bytes) (s : Clients)
    → bytes_equal a addr ≡ false
    → lookup addr s.by_addr ≡ none
    → (lookup addr (create_client d a s).1.by_addr ≡ none)
      × ((create_client d a s).1.calls ≡ s.calls)
unfolding create_client
create_client-keeps refuses a addr s ne none_yet = (ground arith, ground arith)
create_client-keeps connects a addr s ne none_yet =
    (ground (arith, none_yet, lookup-insert a addr s.next s.by_addr), ground arith)

pub get_found :
    (d : Dial) (a : Bytes) (c : ℕ) (s : Clients)
    → lookup a s.by_addr ≡ some c
    → get_client d a s ≡ (client c, s)
unfolding get_client
get_found d a c s f = rw (f, get_client)

get_called :
    (d : Dial) (a : Bytes) (g : Got) (s : Clients)
    → lookup a s.by_addr ≡ none
    → lookup a s.calls ≡ some g
    → get_client d a s ≡ (g, s)
unfolding get_client
get_called d a g s f k = rw (f, get_client, k)

pub get_new :
    (d : Dial) (a : Bytes) (s : Clients)
    → lookup a s.by_addr ≡ none
    → lookup a s.calls ≡ none
    → get_client d a s ≡ new_call a (create_client d a s)
unfolding get_client
get_new d a s f k = rw (f, get_client, k)

get_client-HasCalled :
    (d : Dial) (a addr : Bytes) (g : Got) (s : Clients)
    → HasCalled addr g s
    → HasCalled addr g (get_client d a s).1
get_client-HasCalled d a addr g s h = elim (Bool-cases (bytes_equal a addr)) [
  | inl e ↦
      let same = bytes_equal→eq a addr e in
      let absent : lookup a s.by_addr ≡ none =
        ap (λ (b : Bytes). lookup b s.by_addr) same ∙ h.no_client in
      let called : lookup a s.calls ≡ some g = ap (λ (b : Bytes). lookup b s.calls) same ∙ h.call in
      rw (get_called d a g s absent called) h
  | inr e ↦ elim (Option-cases (lookup a s.by_addr)) [
    | inr (c, f) ↦ rw (get_found d a c s f) h
    | inl f ↦ elim (Option-cases (lookup a s.calls)) [
      | inr (x, k) ↦ rw (get_called d a x s f k) h
      | inl k ↦
          let (absent, calls) = create_client-keeps d a addr s e h.no_client in
          rw (get_new d a s f k) (record {
            no_client = absent;
            call =
                lookup-insert a addr _ (create_client d a s).1.calls
                ∙ ground (arith, e)
                ∙ ap (lookup addr) calls
                ∙ h.call;
          })
    ]
  ]
]

apply-HasCalled :
    (o : Op) (addr : Bytes) (g : Got) (s : Clients)
    → HasCalled addr g s
    → HasCalled addr g (apply o s)
unfolding apply remove_client reset_all_clients
apply-HasCalled (gets d a) addr g s h = get_client-HasCalled d a addr g s h
apply-HasCalled (removes a) addr g s h = record {
  no_client = lookup-delete a addr s.by_addr ∙ ground (arith, h.no_client);
  call = h.call;
}
apply-HasCalled resets addr g s h = record { no_client = unfold lookup in refl; call = h.call }
apply-HasCalled stops addr g s h = record { no_client = h.no_client; call = h.call }

run-HasCalled :
    (os : List Op) (addr : Bytes) (g : Got) (s : Clients)
    → HasCalled addr g s
    → HasCalled addr g (run os s)
unfolding run
run-HasCalled [] addr g s h = h
run-HasCalled (o ∷ os) addr g s h =
    run-HasCalled os addr g (apply o s) (apply-HasCalled o addr g s h)

-- Once createClient was called for an address and its client, if it made one, is gone, no sequence of
-- calls makes another: getClient returns the result of that one call for ever, the client that has
-- exited or the error, and whatever a dial would come to now.
pub get_client-stale :
    (os : List Op) (addr : Bytes) (g : Got) (s : Clients) (d : Dial)
    → lookup addr s.by_addr ≡ none
    → lookup addr s.calls ≡ some g
    → get_client d addr (run os s) ≡ (g, run os s)
get_client-stale os addr g s d none_now called =
    let h = run-HasCalled os addr g s (record { no_client = none_now; call = called }) in
    get_called d addr g (run os s) h.no_client h.call

pub created :
    (addr : Bytes) (s : Clients)
    → lookup addr s.by_addr ≡ none
    → s.quit ≡ false
    → create_client connects addr s
      ≡ (client s.next, record s { by_addr = insert addr s.next s.by_addr; next = suc s.next })
unfolding create_client
created addr s absent running = ground arith
