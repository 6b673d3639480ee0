-- ===== src/Discovery/Defs.antt =====
-- svcDiscoveryClient of config/discovery.go, as a step relation of its callers and of run with its
-- loops.
use samaritan.Prelude.{
  ℕ, ◌+◌, ◌<◌, ◌≡◌, Bool, true, false, List, [], ◌∷◌, ◌++◌, length, Bytes, bytes_equal,
  if◌then◌else◌,
}

-- Subscribe and Unsubscribe hold the lock while they put a name into their channel.
pub data Call : Type 0 where
  no_call : Call
  subscribing unsubscribing : Bytes → Call

-- Where run is: it has no stream, it has one that it made, it has the names for it and has freed the
-- lock, or it is in the loops.
pub data Phase : Type 0 where
  idle made : Phase
  resending : List Bytes → Phase
  running : Phase

-- `batch_sub` and `batch_unsub` are in loopSend's hands; `sent_sub` and `sent_unsub` are the names that
-- were sent on the stream, in their order.
pub record DiscoveryClient : Type 0 where
  pub subscribed : Bytes → Bool
  pub sub_ch : List Bytes
  pub unsub_ch : List Bytes
  pub locked : Call
  pub phase : Phase
  pub batch_sub : List Bytes
  pub batch_unsub : List Bytes
  pub sent_sub : List Bytes
  pub sent_unsub : List Bytes

unfoldable pub new_svc_discovery_client : DiscoveryClient
new_svc_discovery_client = record {
  subscribed = λ n. false;
  sub_ch = [];
  unsub_ch = [];
  locked = no_call;
  phase = idle;
  batch_sub = [];
  batch_unsub = [];
  sent_sub = [];
  sent_unsub = [];
}

abbrev pub channel_size : ℕ
channel_size = 16

abbrev pub set : Bytes → Bool → (Bytes → Bool) → Bytes → Bool
set name b f n = if bytes_equal name n then b else f n

-- How often a name occurs.
abbrev pub one_of : Bytes → Bytes → ℕ
one_of n m = if bytes_equal m n then 1 else 0

unfoldable pub times : Bytes → List Bytes → ℕ
times n [] = 0
times n (m ∷ ms) = one_of n m + times n ms

abbrev pub member : Bool → ℕ
member b = if b then 1 else 0

-- resubscribe waits for the lock, takes the names in any order, and empties the channels. A select
-- takes from any channel that is ready, and the end of the stream stops the loop at any time.
pub data Step (c : DiscoveryClient) : DiscoveryClient → Type 0 where
  subscribe :
      (n : Bytes)
      → c.locked ≡ no_call
      → c.subscribed n ≡ false
      → Step c (record c { subscribed = set n true c.subscribed; locked = subscribing n })
  subscribe_put :
      (n : Bytes)
      → c.locked ≡ subscribing n
      → length c.sub_ch < channel_size
      → Step c (record c { locked = no_call; sub_ch = c.sub_ch ++ n ∷ [] })
  unsubscribe :
      (n : Bytes)
      → c.locked ≡ no_call
      → c.subscribed n ≡ true
      → Step c (record c { subscribed = set n false c.subscribed; locked = unsubscribing n })
  unsubscribe_put :
      (n : Bytes)
      → c.locked ≡ unsubscribing n
      → length c.unsub_ch < channel_size
      → Step c (record c { locked = no_call; unsub_ch = c.unsub_ch ++ n ∷ [] })
  new_stream : c.phase ≡ idle → Step c (record c { phase = made })
  resubscribe :
      (names : List Bytes)
      → c.phase ≡ made
      → c.locked ≡ no_call
      → ((n : Bytes) → times n names ≡ member (c.subscribed n))
      → Step c (record c { phase = resending names; sub_ch = []; unsub_ch = [] })
  resent :
      (names : List Bytes)
      → c.phase ≡ resending names
      → Step c (record c {
        phase = running;
        batch_sub = [];
        batch_unsub = [];
        sent_sub = names;
        sent_unsub = [];
      })
  resend_failed :
      (names : List Bytes) → c.phase ≡ resending names → Step c (record c { phase = idle })
  take_sub :
      (n : Bytes) (rest : List Bytes)
      → c.phase ≡ running
      → c.sub_ch ≡ n ∷ rest
      → Step c (record c { sub_ch = rest; batch_sub = c.batch_sub ++ n ∷ [] })
  take_unsub :
      (n : Bytes) (rest : List Bytes)
      → c.phase ≡ running
      → c.unsub_ch ≡ n ∷ rest
      → Step c (record c { unsub_ch = rest; batch_unsub = c.batch_unsub ++ n ∷ [] })
  send :
      c.phase ≡ running
      → Step c (record c {
        batch_sub = [];
        batch_unsub = [];
        sent_sub = c.sent_sub ++ c.batch_sub;
        sent_unsub = c.sent_unsub ++ c.batch_unsub;
      })
  stopped : c.phase ≡ running → Step c (record c { phase = idle })

pub data Reach (c : DiscoveryClient) : DiscoveryClient → Type 0 where
  at_start : Reach c c
  after : {d e : DiscoveryClient} → Reach c d → Step d e → Reach c e
