-- ===== src/Redis/Session/Defs.antt =====
-- The session's state and its steps.
use samaritan.Prelude.{
  ℕ, suc, ◌<◌, ◌≡◌, Bool, true, false, Option, none, some, List, [], ◌∷◌, ◌++◌, length,
}
use samaritan.Redis.Resp.{RespValue}

-- Requests by their number in the order of the connection. `read` counts those that were decoded and
-- handled, of which the last may be in loopRead's hands; `queue` is processingReqs; `taken` is the
-- request that loopWrite waits for; `responses` are the responses that requests were given, and
-- `written` those that were encoded to the connection, with their requests.
pub record Session : Type 0 where
  pub read : ℕ
  pub in_hand : Option ℕ
  pub queue : List ℕ
  pub taken : Option ℕ
  pub responses : ℕ → Option RespValue
  pub written : List (ℕ × RespValue)
  pub reading : Bool
  pub writing : Bool
  pub quit : Bool

unfoldable pub new_session : Session
new_session = record {
  read = 0;
  in_hand = none;
  queue = [];
  taken = none;
  responses = λ q. none;
  written = [];
  reading = true;
  writing = true;
  quit = false;
}

abbrev pub queue_size : ℕ
queue_size = 32

-- A response is given once, whatever the order among the requests: the requests are answered by
-- clients of several hosts.
pub data Step (s : Session) : Session → Type 0 where
  decoded :
      s.reading ≡ true
      → s.in_hand ≡ none
      → Step s (record s { read = suc s.read; in_hand = some s.read })
  queued :
      (q : ℕ)
      → s.reading ≡ true
      → s.in_hand ≡ some q
      → length s.queue < queue_size
      → Step s (record s { in_hand = none; queue = s.queue ++ q ∷ [] })
  responded :
      (responses : ℕ → Option RespValue)
      → ((q : ℕ) (v : RespValue) → s.responses q ≡ some v → responses q ≡ some v)
      → Step s (record s { responses = responses })
  took :
      (q : ℕ) (rest : List ℕ)
      → s.writing ≡ true
      → s.taken ≡ none
      → s.queue ≡ q ∷ rest
      → Step s (record s { queue = rest; taken = some q })
  wrote :
      (q : ℕ) (v : RespValue)
      → s.writing ≡ true
      → s.taken ≡ some q
      → s.responses q ≡ some v
      → Step s (record s { taken = none; written = s.written ++ (q, v) ∷ [] })
  read_failed : Step s (record s { reading = false; quit = true })
  write_failed : Step s (record s { writing = false; quit = true })
  closed : Step s (record s { quit = true })
  read_quits : (q : ℕ) → s.quit ≡ true → s.in_hand ≡ some q → Step s (record s { reading = false })
  write_quits : s.quit ≡ true → s.taken ≡ none → Step s (record s { writing = false })

pub data Reach : Session → Type 0 where
  start : Reach new_session
  next : {s t : Session} → Reach s → Step s t → Reach t
