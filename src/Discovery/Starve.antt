-- ===== src/Discovery/Starve.antt =====
-- A subscription that waits for room while no stream runs.
use samaritan.Prelude.{◌≡◌, ◌≢◌, refl, inl, inr, List, length, Bytes, ◌⊎◌, arith}
use samaritan.Discovery.Defs.{
  no_call, subscribing, idle, made, resending, running, DiscoveryClient, channel_size, Step,
  subscribe, subscribe_put, unsubscribe, unsubscribe_put, new_stream, resubscribe, resent,
  resend_failed, take_sub, take_unsub, send, stopped, Reach, at_start, after,
}

-- Subscribe holds the lock and its channel is full, while no stream was given its names.
record Starved (c : DiscoveryClient) (m : Bytes) : Type 0 where
  holds : c.locked ≡ subscribing m
  full : length c.sub_ch ≡ channel_size
  waits : (c.phase ≡ idle) ⊎ (c.phase ≡ made)

module _ (c : DiscoveryClient) (m : Bytes) (v : Starved c m) where
  not_running : c.phase ≢ running
  not_running e = elim (v.waits) [ inl w ↦ cc (w, e) | inr w ↦ cc (w, e) ]

  not_resending : (names : List Bytes) → c.phase ≢ resending names
  not_resending names e = elim (v.waits) [ inl w ↦ cc (w, e) | inr w ↦ cc (w, e) ]

  not_free : c.locked ≢ no_call
  not_free e = cc (v.holds, e)

Step-Starved : (c d : DiscoveryClient) (m : Bytes) → Step c d → Starved c m → Starved d m
Step-Starved c d m (subscribe n free out) v = absurd (not_free c m v free)
Step-Starved c d m (unsubscribe n free within) v = absurd (not_free c m v free)
Step-Starved c d m (subscribe_put n held room) v = absurd (let f = v.full in omega arith)
Step-Starved c d m (unsubscribe_put n held room) v = absurd (cc (v.holds, held))
Step-Starved c d m (new_stream e) v = record { holds = v.holds; full = v.full; waits = inr refl }
Step-Starved c d m (resubscribe names e free all) v = absurd (not_free c m v free)
Step-Starved c d m (resent names e) v = absurd (not_resending c m v names e)
Step-Starved c d m (resend_failed names e) v = absurd (not_resending c m v names e)
Step-Starved c d m (take_sub n rest e k) v = absurd (not_running c m v e)
Step-Starved c d m (take_unsub n rest e k) v = absurd (not_running c m v e)
Step-Starved c d m (send e) v = absurd (not_running c m v e)
Step-Starved c d m (stopped e) v = absurd (not_running c m v e)

Reach-Starved : (c d : DiscoveryClient) (m : Bytes) → Reach c d → Starved c m → Starved d m
Reach-Starved c d m at_start v = v
Reach-Starved c d m (after r st) v = Step-Starved _ d m st (Reach-Starved c _ m r v)

-- If a subscription waits for room in its full channel while run has no stream, or has one that it
-- has not given the names yet, then run never gets to its loops again, and the subscription stays.
pub full_channel_stuck :
    (c d : DiscoveryClient) (m : Bytes)
    → c.locked ≡ subscribing m
    → length c.sub_ch ≡ channel_size
    → (c.phase ≡ idle) ⊎ (c.phase ≡ made)
    → Reach c d
    → (d.phase ≢ running) × (d.locked ≡ subscribing m)
full_channel_stuck c d m held full waits r =
    let v = Reach-Starved c d m r (record { holds = held; full = full; waits = waits }) in
    (not_running d m v, v.holds)
