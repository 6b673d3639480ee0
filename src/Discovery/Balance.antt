-- ===== src/Discovery/Balance.antt =====
-- The names that were sent, with those on their way, come to the subscriptions.
use samaritan.Prelude.{
  ℕ, ◌+◌, ◌≡◌, refl, ap, subst, ◌∙◌, inl, inr, Bool, true, false, Bool-cases, List, [], ◌∷◌, ◌++◌,
  Bytes, bytes_equal, bytes_equal→eq, arith,
}
use samaritan.Discovery.Defs.{
  Call, no_call, subscribing, unsubscribing, Phase, idle, made, resending, running, DiscoveryClient,
  new_svc_discovery_client, set, one_of, times, member, Step, subscribe, subscribe_put, unsubscribe,
  unsubscribe_put, new_stream, resubscribe, resent, resend_failed, take_sub, take_unsub, send,
  stopped, Reach, at_start, after,
}

times-append : (n : Bytes) (xs ys : List Bytes) → times n (xs ++ ys) ≡ times n xs + times n ys
unfolding times
times-append n [] ys = omega arith
times-append n (x ∷ xs) ys = grind (arith, times-append n xs ys)

times-last : (n m : Bytes) (xs : List Bytes) → times n (xs ++ m ∷ []) ≡ times n xs + one_of n m
times-last n m xs = times-append n xs (m ∷ []) ∙ unfold times in omega arith

-- A call that has changed the subscriptions and not yet reached its channel.
abbrev comes : Bytes → Call → ℕ
comes n no_call = 0
comes n (subscribing m) = one_of n m
comes n (unsubscribing m) = 0

abbrev leaves : Bytes → Call → ℕ
leaves n no_call = 0
leaves n (subscribing m) = 0
leaves n (unsubscribing m) = one_of n m

-- The names that are still to be sent, against the subscriptions.
abbrev LevelIn : DiscoveryClient → Call → ℕ → ℕ → Bytes → Type 0
LevelIn c call subs unsubs n =
    subs + times n c.sub_ch + comes n call
    ≡ unsubs + times n c.unsub_ch + leaves n call + member (c.subscribed n)

abbrev Level : DiscoveryClient → ℕ → ℕ → Bytes → Type 0
Level c subs unsubs n = LevelIn c c.locked subs unsubs n

abbrev BalancedAt : DiscoveryClient → Phase → Type 0
BalancedAt c idle = Unit
BalancedAt c made = Unit
BalancedAt c (resending names) = (n : Bytes) → Level c (times n names) 0 n
BalancedAt c running =
    (n : Bytes)
    → Level c (times n c.sent_sub + times n c.batch_sub)
        (times n c.sent_unsub + times n c.batch_unsub) n

abbrev Balanced : DiscoveryClient → Type 0
Balanced c = BalancedAt c c.phase

-- A step that leaves the stream alone and keeps every sum.
carried :
    (c d : DiscoveryClient) (p : Phase)
    → (d.sent_sub ≡ c.sent_sub)
      × (d.batch_sub ≡ c.batch_sub)
      × (d.sent_unsub ≡ c.sent_unsub)
      × (d.batch_unsub ≡ c.batch_unsub)
    → ((s u : ℕ) (n : Bytes) → Level c s u n → Level d s u n)
    → BalancedAt c p
    → BalancedAt d p
carried c d idle same move v = tt
carried c d made same move v = tt
carried c d (resending names) same move v = λ n. move (times n names) 0 n (v n)
carried c d running (a, b, e, f) move v = λ n. rw (a, b, e, f) (move _ _ n (v n))

module _ (c : DiscoveryClient) (s u : ℕ) (n : Bytes) (v : Level c s u n) where
  in_call : (call : Call) → c.locked ≡ call → LevelIn c call s u n
  in_call call e = subst (λ x. LevelIn c x s u n) e v

  subscribed_as :
      (m : Bytes) (b : Bool) → bytes_equal m n ≡ true → c.subscribed m ≡ b → c.subscribed n ≡ b
  subscribed_as m b e k = subst (λ (x : Bytes). c.subscribed x ≡ b) (bytes_equal→eq m n e) k

  subscribe-Level :
      (m : Bytes)
      → c.locked ≡ no_call
      → c.subscribed m ≡ false
      → Level (record c { subscribed = set m true c.subscribed; locked = subscribing m }) s u n
  subscribe-Level m free out =
      let w = in_call no_call free in
      elim (Bool-cases (bytes_equal m n)) [
        | inl e ↦ let was = subscribed_as m false e out in rw e (ground (arith, w, was))
        | inr e ↦ rw e (omega arith)
      ]

  unsubscribe-Level :
      (m : Bytes)
      → c.locked ≡ no_call
      → c.subscribed m ≡ true
      → Level (record c { subscribed = set m false c.subscribed; locked = unsubscribing m }) s u n
  unsubscribe-Level m free within =
      let w = in_call no_call free in
      elim (Bool-cases (bytes_equal m n)) [
        | inl e ↦ let was = subscribed_as m true e within in rw e (ground (arith, w, was))
        | inr e ↦ rw e (omega arith)
      ]

  subscribe_put-Level :
      (m : Bytes)
      → c.locked ≡ subscribing m
      → Level (record c { locked = no_call; sub_ch = c.sub_ch ++ m ∷ [] }) s u n
  subscribe_put-Level m held =
      let w = in_call (subscribing m) held in rw (times-last n m c.sub_ch) (omega arith)

  unsubscribe_put-Level :
      (m : Bytes)
      → c.locked ≡ unsubscribing m
      → Level (record c { locked = no_call; unsub_ch = c.unsub_ch ++ m ∷ [] }) s u n
  unsubscribe_put-Level m held =
      let w = in_call (unsubscribing m) held in rw (times-last n m c.unsub_ch) (omega arith)

-- In the loops of run, with the phase known.
in_loops : (c : DiscoveryClient) → c.phase ≡ running → Balanced c → BalancedAt c running
in_loops c e v = subst (BalancedAt c) e v

Step-Balanced : (c d : DiscoveryClient) → Step c d → Balanced c → Balanced d
unfolding times
Step-Balanced c d (subscribe m free out) v =
    carried c d c.phase (refl, refl, refl, refl) (λ s u n l. subscribe-Level c s u n l m free out) v
Step-Balanced c d (unsubscribe m free within) v =
    carried c d c.phase (refl, refl, refl, refl)
      (λ s u n l. unsubscribe-Level c s u n l m free within) v
Step-Balanced c d (subscribe_put m held room) v =
    carried c d c.phase (refl, refl, refl, refl) (λ s u n l. subscribe_put-Level c s u n l m held) v
Step-Balanced c d (unsubscribe_put m held room) v =
    carried c d c.phase (refl, refl, refl, refl) (λ s u n l. unsubscribe_put-Level c s u n l m held)
      v
Step-Balanced c d (new_stream e) v = tt
Step-Balanced c d (resubscribe names e free all) v = λ n. rw (free, all n) (omega arith)
Step-Balanced c d (resent names e) v = λ n. let w = subst (BalancedAt c) e v in grind (arith, w n)
Step-Balanced c d (resend_failed names e) v = tt
Step-Balanced c d (take_sub m rest e k) v = rw e (λ n.
    let w = in_loops c e v n in
    let taken = ap (times n) k in rw (times-last n m c.batch_sub) (omega arith))
Step-Balanced c d (take_unsub m rest e k) v = rw e (λ n.
    let w = in_loops c e v n in
    let taken = ap (times n) k in rw (times-last n m c.batch_unsub) (omega arith))
Step-Balanced c d (send e) v = rw e (λ n.
    let w = in_loops c e v n in
    rw (times-append n c.sent_sub c.batch_sub, times-append n c.sent_unsub c.batch_unsub)
      (omega arith))
Step-Balanced c d (stopped e) v = tt

Reach-Balanced : (c d : DiscoveryClient) → Reach c d → Balanced c → Balanced d
Reach-Balanced c d at_start v = v
Reach-Balanced c d (after r st) v = Step-Balanced _ d st (Reach-Balanced c _ r v)

-- The client is in its loops and nothing is on its way: the channels and the batch are empty, and no
-- call holds the lock.
abbrev pub Settled : DiscoveryClient → Type 0
Settled c =
    (c.phase ≡ running)
    × (c.locked ≡ no_call)
    × (c.sub_ch ≡ [])
    × (c.unsub_ch ≡ [])
    × (c.batch_sub ≡ [])
    × (c.batch_unsub ≡ [])

-- Whatever calls, streams and failures came before, when the client is in its loops and nothing is on
-- its way, every name that is subscribed was sent on the present stream as subscribed just once more
-- often than as unsubscribed, and every other name equally often.
pub sent_subscriptions :
    (c : DiscoveryClient)
    → Reach new_svc_discovery_client c
    → Settled c
    → (n : Bytes) → times n c.sent_sub ≡ times n c.sent_unsub + member (c.subscribed n)
unfolding times new_svc_discovery_client
sent_subscriptions c r (e, free, no_sub, no_unsub, no_batch, no_unbatch) n =
    let w = in_loops c e (Reach-Balanced new_svc_discovery_client c r tt) n in
    let a = ap (times n) no_sub in
    let b = ap (times n) no_unsub in
    let d = ap (times n) no_batch in
    let f = ap (times n) no_unbatch in
    let g = ap (comes n) free in let h = ap (leaves n) free in omega arith
