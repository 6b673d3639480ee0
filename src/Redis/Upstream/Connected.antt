-- ===== src/Redis/Upstream/Connected.antt =====
-- While no client has gone and every dial succeeds, getClient returns a client, which stays.
use samaritan.Prelude.{
  ℕ, suc, ◌≡◌, ap, ◌∙◌, inl, inr, false, Bool-cases, none, some, Option-cases, Bytes, bytes_equal,
  bytes_equal_refl, bytes_equal→eq, arith,
}
use samaritan.Prelude.Assoc.{lookup, insert, lookup-insert}
use samaritan.Redis.Upstream.Clients.{connects, Got, client, Clients, new_call, get_client}
use samaritan.Redis.Upstream.Single.{get_found, get_new, created}

-- The upstream runs, and an address for which a client was made has it still.
pub record IsConnected (s : Clients) : Type 0 where
  pub running : s.quit ≡ false
  pub in_sync :
      (a : Bytes) (g : Got) → lookup a s.calls ≡ some g → (c : ℕ) × (lookup a s.by_addr ≡ some c)

-- The clients of s stay in t.
abbrev pub Keeps : Clients → Clients → Type 0
Keeps s t = (b : Bytes) (c : ℕ) → lookup b s.by_addr ≡ some c → lookup b t.by_addr ≡ some c

module _ (addr : Bytes) (s : Clients) (absent : lookup addr s.by_addr ≡ none) where
  -- The clients with a new one for the address, whose call has ended.
  added : Clients
  added = record s {
    by_addr = insert addr s.next s.by_addr;
    calls = insert addr (client s.next) s.calls;
    next = suc s.next;
  }

  added_self : lookup addr added.by_addr ≡ some s.next
  unfolding added
  added_self = lookup-insert addr addr s.next s.by_addr ∙ ground (arith, bytes_equal_refl addr)

  added-Keeps : Keeps s added
  unfolding added
  added-Keeps b c h = elim (Bool-cases (bytes_equal addr b)) [
    | inl e ↦ cc (h, absent, ap (λ (x : Bytes). lookup x s.by_addr) (bytes_equal→eq addr b e))
    | inr e ↦ lookup-insert addr b s.next s.by_addr ∙ rw e h
  ]

  added-IsConnected : IsConnected s → IsConnected added
  unfolding added
  added-IsConnected h = record {
    running = h.running;
    in_sync = λ b g called. elim (Bool-cases (bytes_equal addr b)) [
      | inl e ↦ (s.next, lookup-insert addr b s.next s.by_addr ∙ rw e)
      | inr e ↦
          let old : lookup b s.calls ≡ some g =
            rw (lookup-insert addr b (client s.next) s.calls, e) at called in
          let (c, k) = h.in_sync b g old in (c, lookup-insert addr b s.next s.by_addr ∙ rw e k)
    ];
  }

pub get_client-IsConnected :
    (addr : Bytes) (s : Clients)
    → IsConnected s
    → (c : ℕ) × (t : Clients) × (get_client connects addr s ≡ (client c, t))
      × (lookup addr t.by_addr ≡ some c)
      × IsConnected t
      × Keeps s t
get_client-IsConnected addr s h = elim (Option-cases (lookup addr s.by_addr)) [
  | inr (c, f) ↦ (c, s, get_found connects addr c s f, f, h, λ b x k. k)
  | inl f ↦ elim (Option-cases (lookup addr s.calls)) [
    | inr (g, k) ↦ let (c, e) = h.in_sync addr g k in cc (e, f)
    | inl k ↦ (
      s.next,
      added addr s f,
      unfold added in get_new connects addr s f k ∙ ap (new_call addr) (created addr s f h.running),
      added_self addr s f,
      added-IsConnected addr s f h,
      added-Keeps addr s f,
    )
  ]
]
