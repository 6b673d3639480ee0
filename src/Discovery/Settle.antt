-- ===== src/Discovery/Settle.antt =====
-- The loops of run empty the channels.
use samaritan.Prelude.{
  ◌+◌, ◌<◌, ◌≡◌, refl, sym, subst, ◌∙◌, Bool, List, [], ◌∷◌, ◌++◌, length, Bytes, arith,
}
use samaritan.Discovery.Defs.{
  Call, no_call, subscribing, unsubscribing, running, DiscoveryClient, new_svc_discovery_client,
  channel_size, times, member, Step, subscribe_put, unsubscribe_put, take_sub, take_unsub, send,
  Reach, at_start, after,
}
use samaritan.Discovery.Balance.{Settled, sent_subscriptions}

then_reach : (c d e : DiscoveryClient) → Reach c d → Reach d e → Reach c e
then_reach c d e r at_start = r
then_reach c d e r (after q st) = after (then_reach c d _ r q) st

-- A state that the loops reach with the same subscriptions.
abbrev Goes : DiscoveryClient → (DiscoveryClient → Type 0) → Type 0
Goes c P =
    (d : DiscoveryClient) × Reach c d × (d.phase ≡ running) × (d.subscribed ≡ c.subscribed) × P d

abbrev via :
    (c d : DiscoveryClient) (P : DiscoveryClient → Type 0)
    → Step c d
    → d.subscribed ≡ c.subscribed
    → Goes d P
    → Goes c P
via c d P st same (e, r, run, k, p) = (e, then_reach c d e (after at_start st) r, run, k ∙ same, p)

empty_sub :
    (xs : List Bytes) (c : DiscoveryClient)
    → c.phase ≡ running
    → c.sub_ch ≡ xs
    → Goes c (λ d. (d.sub_ch ≡ []) × (d.unsub_ch ≡ c.unsub_ch) × (d.locked ≡ c.locked))
empty_sub [] c e k = (c, at_start, e, refl, (k, refl, refl))
empty_sub (x ∷ xs) c e k =
    let c' : DiscoveryClient = record c { sub_ch = xs; batch_sub = c.batch_sub ++ x ∷ [] } in
    via c c' (λ d. (d.sub_ch ≡ []) × (d.unsub_ch ≡ c.unsub_ch) × (d.locked ≡ c.locked))
      (take_sub x xs e k) refl (empty_sub xs c' e refl)

empty_unsub :
    (xs : List Bytes) (c : DiscoveryClient)
    → c.phase ≡ running
    → c.unsub_ch ≡ xs
    → Goes c (λ d. (d.unsub_ch ≡ []) × (d.sub_ch ≡ c.sub_ch) × (d.locked ≡ c.locked))
empty_unsub [] c e k = (c, at_start, e, refl, (k, refl, refl))
empty_unsub (x ∷ xs) c e k =
    let c' : DiscoveryClient = record c { unsub_ch = xs; batch_unsub = c.batch_unsub ++ x ∷ [] } in
    via c c' (λ d. (d.unsub_ch ≡ []) × (d.sub_ch ≡ c.sub_ch) × (d.locked ≡ c.locked))
      (take_unsub x xs e k) refl (empty_unsub xs c' e refl)

abbrev EmptyIn : Call → DiscoveryClient → Type 0
EmptyIn call d = (d.sub_ch ≡ []) × (d.unsub_ch ≡ []) × (d.locked ≡ call)

empty_both : (c : DiscoveryClient) → c.phase ≡ running → Goes c (EmptyIn c.locked)
empty_both c e =
    let (d, r, run, k, (no_sub, same, held)) = empty_sub c.sub_ch c e refl in
    let (d', r', run', k', (no_unsub, same', held')) = empty_unsub d.unsub_ch d run refl in
    (d', then_reach c d d' r r', run', k' ∙ k, (same' ∙ no_sub, no_unsub, held' ∙ held))

-- The call that holds the lock puts its name and frees the lock.
freed :
    (c : DiscoveryClient) (call : Call)
    → c.phase ≡ running
    → EmptyIn call c
    → Goes c (EmptyIn no_call)
freed c no_call e v = (c, at_start, e, refl, v)
freed c (subscribing m) e (no_sub, no_unsub, held) =
    let c' : DiscoveryClient = record c { locked = no_call; sub_ch = c.sub_ch ++ m ∷ [] } in
    let room = subst (λ (xs : List Bytes). length xs < channel_size) (sym no_sub) (omega arith) in
    via c c' (EmptyIn no_call) (subscribe_put m held room) refl (empty_both c' e)
freed c (unsubscribing m) e (no_sub, no_unsub, held) =
    let c' : DiscoveryClient = record c { locked = no_call; unsub_ch = c.unsub_ch ++ m ∷ [] } in
    let room = subst (λ (xs : List Bytes). length xs < channel_size) (sym no_unsub) (omega arith) in
    via c c' (EmptyIn no_call) (unsubscribe_put m held room) refl (empty_both c' e)

settles : (c : DiscoveryClient) → c.phase ≡ running → Goes c Settled
settles c e =
    let (d, r, run, k, v) = empty_both c e in
    let (d', r', run', k', (no_sub, no_unsub, free)) = freed d c.locked run v in
    let end : DiscoveryClient = record d' {
      batch_sub = [];
      batch_unsub = [];
      sent_sub = d'.sent_sub ++ d'.batch_sub;
      sent_unsub = d'.sent_unsub ++ d'.batch_unsub;
    } in
    (
      end,
      after (then_reach c d d' r r') (send run'),
      run',
      k' ∙ k,
      (run', free, no_sub, no_unsub, refl, refl),
    )

-- From every state that the client reaches and in which it is in its loops, it can reach one with the
-- same subscriptions in which every name that is subscribed was sent on the present stream as
-- subscribed just once more often than as unsubscribed, and every other name equally often.
pub subscriptions_reach_stream :
    (c : DiscoveryClient)
    → Reach new_svc_discovery_client c
    → c.phase ≡ running
    → (d : DiscoveryClient) × Reach c d
      × (d.subscribed ≡ c.subscribed)
      × Settled d
      × ((n : Bytes) → times n d.sent_sub ≡ times n d.sent_unsub + member (c.subscribed n))
subscriptions_reach_stream c r e =
    let (d, q, run, k, v) = settles c e in
    (
      d,
      q,
      k,
      v,
      λ n.
          subst (λ (f : Bytes → Bool). times n d.sent_sub ≡ times n d.sent_unsub + member (f n)) k
            (sent_subscriptions d (then_reach _ c d r q) v n),
    )
