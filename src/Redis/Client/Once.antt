-- ===== src/Redis/Client/Once.antt =====
-- No request is answered twice or made up, and what becomes of the requests when the client stops.
use samaritan.Prelude.{ℕ, ◌+◌, ◌≤◌, ◌≡◌, refl, ap, List, [], ◌∷◌, ◌++◌, ◌==◌, if◌then◌else◌, arith}
use samaritan.Redis.Client.Defs.{
  Outcome, replied, failed, filtered, Holding, nothing, taken, encoded, Client, new_client, Picks,
  here, there, Step, send_refused, send_checked, send_queued, write_take, write_filtered,
  write_encoded, encode_failed, flush_failed, write_queued, write_quits, write_drops, read_reply,
  read_handled, read_failed, stopped, drain_pending, drain_processing, drained, Reach, at_start,
  after,
}

abbrev one : ℕ → ℕ → ℕ
one a x = if x == a then 1 else 0

-- How often a number stands in a list.
abbrev pub times : ℕ → List ℕ → ℕ
times q [] = 0
times q (p ∷ ps) = one q p + times q ps

times-append :
    (q : ℕ) (front rest : List ℕ) → times q front + times q rest ≡ times q (front ++ rest)
times-append q [] rest = omega arith
times-append q (p ∷ front) rest = omega (arith, times-append q front rest)

times-Picks : (a : ℕ) {q : ℕ} {l m : List ℕ} → Picks q l m → times a l ≡ one a q + times a m
times-Picks a here = refl
times-Picks a (there p) = omega (arith, times-Picks a p)

abbrev pub in_hand : Holding → List ℕ
in_hand nothing = []
in_hand (taken q) = q ∷ []
in_hand (encoded q) = q ∷ []

abbrev pub requests : List (ℕ × Outcome) → List ℕ
requests [] = []
requests ((q, o) ∷ hs) = q ∷ requests hs

times-handled :
    (a q : ℕ) (o : Outcome) (hs : List (ℕ × Outcome))
    → times a (requests (hs ++ (q, o) ∷ [])) ≡ times a (requests hs) + one a q
times-handled a q o [] = omega arith
times-handled a q o ((p, x) ∷ hs) = omega (arith, times-handled a q o hs)

-- The places of a client where a request can be.
abbrev pub held : ℕ → Client → ℕ
held a c =
    times a c.senders
    + times a c.pending
    + times a (in_hand c.holding)
    + times a c.processing
    + times a (requests c.handled)
    + times a c.lost

-- The requests that Send was called with, in a run.
abbrev sent_by : {c d : Client} → Step c d → List ℕ
sent_by (send_refused q h) = q ∷ []
sent_by (send_checked q h) = q ∷ []
sent_by _ = []

abbrev pub sent : {c d : Client} → Reach c d → List ℕ
sent at_start = []
sent (after r s) = sent_by s ++ sent r

held-step : (a : ℕ) {c d : Client} (s : Step c d) → held a d ≡ times a (sent_by s) + held a c
held-step a {c} (send_refused q h) = omega (arith, times-handled a q failed c.handled)
held-step a (send_checked q h) = omega arith
held-step a {c} (send_queued q rest p l) =
    omega (arith, times-Picks a p, times-append a c.pending (q ∷ []))
held-step a {c} (write_take q rest w n p) =
    omega (arith, ap (times a) p, ap (λ (h : Holding). times a (in_hand h)) n)
held-step a {c} (write_filtered q h) =
    omega (arith, times-handled a q filtered c.handled, ap (λ (h : Holding). times a (in_hand h)) h)
held-step a {c} (write_encoded q h) = omega (arith, ap (λ (h : Holding). times a (in_hand h)) h)
held-step a {c} (encode_failed q h) =
    omega (arith, times-handled a q failed c.handled, ap (λ (h : Holding). times a (in_hand h)) h)
held-step a {c} (flush_failed q h) =
    omega (arith, times-handled a q failed c.handled, ap (λ (h : Holding). times a (in_hand h)) h)
held-step a {c} (write_queued q h l) =
    omega (arith, times-append a c.processing (q ∷ []), ap (λ (h : Holding). times a (in_hand h)) h)
held-step a (write_quits w n h) = omega arith
held-step a {c} (write_drops q h k) = omega (arith, ap (λ (h : Holding). times a (in_hand h)) h)
held-step a (read_reply x r n l) = omega arith
held-step a {c} (read_handled q x rest e p) =
    omega (arith, times-handled a q (replied c.read x) c.handled, ap (times a) p)
held-step a (read_failed r n) = omega arith
held-step a stopped = omega arith
held-step a {c} (drain_pending q rest r w d p) =
    omega (arith, times-handled a q failed c.handled, ap (times a) p)
held-step a {c} (drain_processing q rest r w d p) =
    omega (arith, times-handled a q failed c.handled, ap (times a) p)
held-step a (drained r w p s) = omega arith

held-reach : (a : ℕ) {c d : Client} (r : Reach c d) → held a d ≡ times a (sent r) + held a c
held-reach a at_start = omega arith
held-reach a (after r s) =
    omega (arith, held-step a s, held-reach a r, times-append a (sent_by s) (sent r))

-- In every run of a new client, a request stands as often in the client's hands (with a caller of
-- Send, in one of the two queues, with the writer, among those answered or among those dropped) as
-- Send was called with it. So no request is answered more often than it was sent.
pub sent_is_held :
    (a : ℕ) {c : Client} (r : Reach new_client c)
    → (held a c ≡ times a (sent r)) × (times a (requests c.handled) ≤ times a (sent r))
unfolding new_client
sent_is_held a r = (omega (arith, held-reach a r), omega (arith, held-reach a r))
