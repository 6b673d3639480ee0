-- ===== src/Discovery/Tests.antt =====
-- Runs of a discovery client.
use samaritan.Prelude.{
  ℕ, ◌+◌, ◌≡◌, ◌≢◌, refl, inl, inr, Bool-cases, true, false, [], ◌∷◌, map, Bytes, bytes,
  bytes_equal, arith,
}
use samaritan.Discovery.Defs.{
  subscribing, made, running, DiscoveryClient, new_svc_discovery_client, set, times, member,
  subscribe, subscribe_put, new_stream, resubscribe, resent, Reach, at_start, after,
}
use samaritan.Discovery.Balance.{Settled}
use samaritan.Discovery.Settle.{subscriptions_reach_stream}
use samaritan.Discovery.Starve.{full_channel_stuck}

abbrev users : Bytes
users = bytes "users"

-- A service is subscribed before there is a stream, then the stream gets its name.
abbrev in_loops : DiscoveryClient
in_loops = record new_svc_discovery_client {
  subscribed = set users true (λ n. false);
  phase = running;
  sent_sub = users ∷ [];
}

to_loops : Reach new_svc_discovery_client in_loops
unfolding new_svc_discovery_client times
to_loops =
    after
      (after
        (after
          (after (after at_start (subscribe users refl refl))
            (subscribe_put users refl (omega arith)))
          (new_stream refl))
        (resubscribe (users ∷ []) refl refl
          (λ n. elim (Bool-cases (bytes_equal users n)) [ inl e ↦ rw e refl | inr e ↦ rw e refl ])))
      (resent (users ∷ []) refl)

subscriptions_reach_stream_example :
    (d : DiscoveryClient) × Reach in_loops d
    × (d.subscribed ≡ in_loops.subscribed)
    × Settled d
    × ((n : Bytes) → times n d.sent_sub ≡ times n d.sent_unsub + member (in_loops.subscribed n))
unfolding new_svc_discovery_client
subscriptions_reach_stream_example = subscriptions_reach_stream in_loops to_loops refl

-- Seventeen services are subscribed before there is a stream.
abbrev waiting : DiscoveryClient
waiting = record new_svc_discovery_client {
  subscribed = λ n. true;
  sub_ch =
      map (λ (i : ℕ). i ∷ [])
        (0 ∷ 1 ∷ 2 ∷ 3 ∷ 4 ∷ 5 ∷ 6 ∷ 7 ∷ 8 ∷ 9 ∷ 10 ∷ 11 ∷ 12 ∷ 13 ∷ 14 ∷ 15 ∷ []);
  locked = subscribing users;
}

full_channel_stuck_example :
    ((record waiting { phase = made }).phase ≢ running)
    × ((record waiting { phase = made }).locked ≡ subscribing users)
unfolding new_svc_discovery_client
full_channel_stuck_example =
    full_channel_stuck waiting (record waiting { phase = made }) users refl refl (inl refl)
      (after at_start (new_stream refl))
