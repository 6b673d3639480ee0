-- ===== src/Redis/Client/Defs.antt =====
-- The client's state and its steps.
use samaritan.Prelude.{
  ℕ, suc, ◌<◌, ◌≡◌, Bool, true, false, Option, none, some, List, [], ◌∷◌, ◌++◌, Bytes, bytes,
  bytes_equal, length, ◌==◌, if◌then◌else◌,
}
use samaritan.Redis.Request.ReadOnly.{to_lower}
use samaritan.Redis.Resp.{error, RespValue, typ, text, bytes_of}

-- The text up to the first space, or nothing if there is no space.
unfoldable pub error_prefix : Bytes → Option Bytes
error_prefix [] = none
error_prefix (c ∷ cs) =
    let rest = error_prefix cs in
    if c == b' ' then some [] else elim rest [ none ↦ none | some p ↦ some (c ∷ p) ]

-- What handleResp does with a response: it answers the request with it, or hands both to a callback.
pub data Action : Type 0 where
  responds redirects cluster_down : Action

abbrev pub by_prefix : Bytes → Action
by_prefix p =
    if bytes_equal p (bytes "moved")
    then redirects
    else if bytes_equal p (bytes "ask")
    then redirects
    else if bytes_equal p (bytes "clusterdown")
    then cluster_down
    else responds

-- Texts are in ASCII.
unfoldable pub handle_resp : RespValue → Action
unfolding to_lower error_prefix
handle_resp v = elim (typ v) [
  | error ↦ elim (error_prefix (bytes_of (text v))) [
    | none ↦ responds
    | some p ↦ by_prefix (to_lower p)
  ]
  | _ ↦ responds
]

-- How a request left the client: with the n-th reply of the connection, with an error of the client's
-- own, or with the response of a filter.
pub data Outcome : Type 0 where
  replied : ℕ → RespValue → Outcome
  failed filtered : Outcome

-- The request in loopWrite's hands, and whether its bytes were encoded.
pub data Holding : Type 0 where
  nothing : Holding
  taken encoded : ℕ → Holding

-- Requests by number. `senders` are in Send, past its check; `wire` is the history of the requests
-- whose bytes were written out; `read` counts the replies decoded, of which `reply` waits for its
-- request; `lost` are the requests that loopWrite dropped when it returned.
pub record Client : Type 0 where
  pub senders : List ℕ
  pub pending : List ℕ
  pub holding : Holding
  pub processing : List ℕ
  pub wire : List ℕ
  pub read : ℕ
  pub reply : Option RespValue
  pub handled : List (ℕ × Outcome)
  pub lost : List ℕ
  pub writing : Bool
  pub reading : Bool
  pub quit : Bool
  pub done : Bool

unfoldable pub new_client : Client
new_client = record {
  senders = [];
  pending = [];
  holding = nothing;
  processing = [];
  wire = [];
  read = 0;
  reply = none;
  handled = [];
  lost = [];
  writing = true;
  reading = true;
  quit = false;
  done = false;
}

abbrev pub queue_size : ℕ
queue_size = 1024

abbrev handle : ℕ → Outcome → Client → Client
handle q o c = record c { handled = c.handled ++ (q, o) ∷ [] }

-- Taking an item out of a list, wherever it stands.
pub data Picks (q : ℕ) : List ℕ → List ℕ → Type 0 where
  here : {l : List ℕ} → Picks q (q ∷ l) l
  there : {x : ℕ} {l m : List ℕ} → Picks q l m → Picks q (x ∷ l) (x ∷ m)

-- The steps of Send, loopWrite, loopRead, Start, drainRequests and Stop. A channel that is full
-- blocks. The server answers the requests of a connection one by one in their order, so that a reply
-- is decoded only for a request whose bytes were written.
pub data Step (c : Client) : Client → Type 0 where
  send_refused : (q : ℕ) → c.quit ≡ true → Step c (handle q failed c)
  send_checked : (q : ℕ) → c.quit ≡ false → Step c (record c { senders = q ∷ c.senders })
  send_queued :
      (q : ℕ) (rest : List ℕ)
      → Picks q c.senders rest
      → length c.pending < queue_size
      → Step c (record c { senders = rest; pending = c.pending ++ q ∷ [] })
  write_take :
      (q : ℕ) (rest : List ℕ)
      → c.writing ≡ true
      → c.holding ≡ nothing
      → c.pending ≡ q ∷ rest
      → Step c (record c { pending = rest; holding = taken q })
  write_filtered :
      (q : ℕ) → c.holding ≡ taken q → Step c (handle q filtered (record c { holding = nothing }))
  write_encoded :
      (q : ℕ)
      → c.holding ≡ taken q
      → Step c (record c { holding = encoded q; wire = c.wire ++ q ∷ [] })
  encode_failed :
      (q : ℕ)
      → c.holding ≡ taken q
      → Step c (handle q failed (record c { holding = nothing; writing = false }))
  flush_failed :
      (q : ℕ)
      → c.holding ≡ encoded q
      → Step c (handle q failed (record c { holding = nothing; writing = false }))
  write_queued :
      (q : ℕ)
      → c.holding ≡ encoded q
      → length c.processing < queue_size
      → Step c (record c { holding = nothing; processing = c.processing ++ q ∷ [] })
  write_quits :
      c.writing ≡ true → c.holding ≡ nothing → c.quit ≡ true → Step c (record c { writing = false })
  write_drops :
      (q : ℕ)
      → c.holding ≡ encoded q
      → c.quit ≡ true
      → Step c (record c { holding = nothing; writing = false; lost = q ∷ c.lost })
  read_reply :
      (v : RespValue)
      → c.reading ≡ true
      → c.reply ≡ none
      → c.read < length c.wire
      → Step c (record c { reply = some v })
  read_handled :
      (q : ℕ) (v : RespValue) (rest : List ℕ)
      → c.reply ≡ some v
      → c.processing ≡ q ∷ rest
      → Step c (
          handle q
            (replied c.read v)
            (record c { reply = none; processing = rest; read = suc c.read }))
  read_failed :
      c.reading ≡ true → c.reply ≡ none → Step c (record c { reading = false; quit = true })
  stopped : Step c (record c { quit = true })
  drain_pending :
      (q : ℕ) (rest : List ℕ)
      → c.reading ≡ false
      → c.writing ≡ false
      → c.done ≡ false
      → c.pending ≡ q ∷ rest
      → Step c (handle q failed (record c { pending = rest }))
  drain_processing :
      (q : ℕ) (rest : List ℕ)
      → c.reading ≡ false
      → c.writing ≡ false
      → c.done ≡ false
      → c.processing ≡ q ∷ rest
      → Step c (handle q failed (record c { processing = rest }))
  drained :
      c.reading ≡ false
      → c.writing ≡ false
      → c.pending ≡ []
      → c.processing ≡ []
      → Step c (record c { done = true })

pub data Reach (c : Client) : Client → Type 0 where
  at_start : Reach c c
  after : {d e : Client} → Reach c d → Step d e → Reach c e
