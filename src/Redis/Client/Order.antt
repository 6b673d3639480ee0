-- ===== src/Redis/Client/Order.antt =====
-- Every reply reaches the request that it answers.
use samaritan.Prelude.{
  ℕ, zero, suc, ◌≡◌, refl, sym, ap, ◌∙◌, Bool, true, false, Option, none, some, List, [], ◌∷◌, ◌++◌,
  append_assoc, append-nil, inl, inr, Bool-cases, All, All-append, All-weaken, length,
  length-append, get_elem?, arith,
}
use samaritan.Redis.Resp.{RespValue}
use samaritan.Redis.Client.Defs.{
  Outcome, replied, failed, filtered, Holding, nothing, taken, encoded, Client, new_client, Step,
  send_refused, send_checked, send_queued, write_take, write_filtered, write_encoded, encode_failed,
  flush_failed, write_queued, write_quits, write_drops, read_reply, read_handled, read_failed,
  stopped, drain_pending, drain_processing, drained, Reach, at_start, after,
}

module _ {ℓ} {A : Type ℓ} where
  get_elem?-append :
      (xs ys : List A) (n : ℕ) {a : A} → get_elem? xs n ≡ some a → get_elem? (xs ++ ys) n ≡ some a
  get_elem?-append [] ys n h = cc
  get_elem?-append (x ∷ xs) ys zero h = h
  get_elem?-append (x ∷ xs) ys (suc n) h = get_elem?-append xs ys n h

  get_elem?-middle : (xs ys : List A) (a : A) → get_elem? (xs ++ a ∷ ys) (length xs) ≡ some a
  get_elem?-middle [] ys a = refl
  get_elem?-middle (x ∷ xs) ys a = get_elem?-middle xs ys a

-- The request whose bytes are written and that is not in the queue of those being processed.
abbrev unqueued : Holding → List ℕ
unqueued (encoded q) = q ∷ []
unqueued _ = []

-- A reply belongs to the request that stands at its place in the history of the connection.
abbrev pub Answers : List ℕ → ℕ × Outcome → Type 0
Answers wire (q, replied n v) = get_elem? wire n ≡ some q
Answers wire (q, failed) = Unit
Answers wire (q, filtered) = Unit

Answers-more : (wire more : List ℕ) (h : ℕ × Outcome) → Answers wire h → Answers (wire ++ more) h
Answers-more wire more (q, replied n v) e = get_elem?-append wire more n e
Answers-more wire more (q, failed) e = tt
Answers-more wire more (q, filtered) e = tt

-- While the reader runs, the requests that wait for a reply stand in the history behind those that
-- had one, in the order of the queue; `rest` is what the writer left behind when it returned.
record Aligned (wire processing : List ℕ) (holding : Holding) (read : ℕ) (reply : Option RespValue)
    (reading writing : Bool) (handled : List (ℕ × Outcome)) : Type 0 where
  past : List ℕ
  rest : List ℕ
  split : reading ≡ true → wire ≡ past ++ (processing ++ (unqueued holding ++ rest))
  count : length past ≡ read
  no_rest : writing ≡ true → rest ≡ []
  busy : writing ≡ false → holding ≡ nothing
  idle : reading ≡ false → reply ≡ none
  answered : All (Answers wire) handled

abbrev IsAligned : Client → Type 0
IsAligned c = Aligned c.wire c.processing c.holding c.read c.reply c.reading c.writing c.handled

module _ {wire processing : List ℕ} {holding : Holding} {read : ℕ} {reply : Option RespValue}
    {reading writing : Bool} {handled : List (ℕ × Outcome)}
    (v : Aligned wire processing holding read reply reading writing handled) where
  more_handled :
      (h : ℕ × Outcome)
      → Answers wire h
      → Aligned wire processing holding read reply reading writing (handled ++ h ∷ [])
  more_handled h a = record {
    past = v.past;
    rest = v.rest;
    split = v.split;
    count = v.count;
    no_rest = v.no_rest;
    busy = v.busy;
    idle = v.idle;
    answered = All-append (Answers wire) handled (h ∷ []) v.answered (a, tt);
  }

  rehold :
      (h : Holding)
      → unqueued holding ≡ unqueued h
      → (writing ≡ false → h ≡ nothing)
      → Aligned wire processing h read reply reading writing handled
  rehold h e b = record {
    past = v.past;
    rest = v.rest;
    split = λ r. v.split r ∙ ap (λ (l : List ℕ). v.past ++ (processing ++ (l ++ v.rest))) e;
    count = v.count;
    no_rest = v.no_rest;
    busy = b;
    idle = v.idle;
    answered = v.answered;
  }

  -- The writer returns, and what it held stays in the history only.
  stop : Aligned wire processing nothing read reply reading false handled
  stop = record {
    past = v.past;
    rest = unqueued holding ++ v.rest;
    split = v.split;
    count = v.count;
    no_rest = λ h. cc;
    busy = λ h. refl;
    idle = v.idle;
    answered = v.answered;
  }

  is_writing : (q : ℕ) → holding ≡ taken q → writing ≡ true
  is_writing q h = elim (Bool-cases writing) [ inl w ↦ w | inr w ↦ cc (h, v.busy w) ]

  is_reading : (x : RespValue) → reply ≡ some x → reading ≡ true
  is_reading x h = elim (Bool-cases reading) [ inl w ↦ w | inr w ↦ cc (h, v.idle w) ]

  encode :
      (q : ℕ)
      → holding ≡ taken q
      → Aligned (wire ++ q ∷ []) processing (encoded q) read reply reading writing handled
  encode q h =
      let done = v.no_rest (is_writing q h) in
      record {
        past = v.past;
        rest = [];
        split = λ r.
            ap (λ (l : List ℕ). l ++ q ∷ [])
              (v.split r
                ∙ ap (λ (l : List ℕ). v.past ++ (processing ++ (unqueued holding ++ l))) done
                ∙ ap (λ (x : Holding). v.past ++ (processing ++ (unqueued x ++ []))) h)
            ∙ shuffle v.past processing (q ∷ []);
        count = v.count;
        no_rest = λ w. refl;
        busy = λ w. cc (is_writing q h, w);
        idle = v.idle;
        answered =
            All-weaken (Answers wire) (Answers (wire ++ q ∷ [])) handled
              (Answers-more wire (q ∷ [])) v.answered;
      }
    where
      shuffle : (a b c : List ℕ) → (a ++ (b ++ [])) ++ c ≡ a ++ (b ++ (c ++ []))
      shuffle a b c = simp (append_assoc, append-nil)

  enqueue :
      (q : ℕ)
      → holding ≡ encoded q
      → Aligned wire (processing ++ q ∷ []) nothing read reply reading writing handled
  enqueue q h = record {
    past = v.past;
    rest = v.rest;
    split = λ r.
        v.split r
        ∙ ap (λ (x : Holding). v.past ++ (processing ++ (unqueued x ++ v.rest))) h
        ∙ ap (◌++◌ v.past) (sym (append_assoc processing (q ∷ []) v.rest));
    count = v.count;
    no_rest = v.no_rest;
    busy = λ w. refl;
    idle = v.idle;
    answered = v.answered;
  }

  -- The reply that was decoded goes to the oldest request of the queue, and is the reply to it.
  deliver :
      (q : ℕ) (x : RespValue) (ps : List ℕ)
      → reply ≡ some x
      → processing ≡ q ∷ ps
      → Aligned wire ps holding
          (suc read)
          none
          reading
          writing
          (handled ++ (q, replied read x) ∷ [])
  deliver q x ps e p =
      let r = is_reading x e in
      let here = v.split r ∙ ap (λ (l : List ℕ). v.past ++ (l ++ (unqueued holding ++ v.rest))) p in
      let found : get_elem? wire read ≡ some q =
        ap (λ (l : List ℕ). get_elem? l read) here
        ∙ ap (get_elem? (v.past ++ (q ∷ ps ++ (unqueued holding ++ v.rest)))) (sym v.count)
        ∙ get_elem?-middle v.past (ps ++ (unqueued holding ++ v.rest)) q in
      record {
        past = v.past ++ q ∷ [];
        rest = v.rest;
        split = λ _. here ∙ sym (append_assoc v.past (q ∷ []) (ps ++ (unqueued holding ++ v.rest)));
        count = omega (arith, length-append v.past (q ∷ []), v.count);
        no_rest = v.no_rest;
        busy = v.busy;
        idle = λ w. refl;
        answered =
            All-append (Answers wire) handled ((q, replied read x) ∷ []) v.answered (found, tt);
      }

Step-Aligned : {c d : Client} → Step c d → IsAligned c → IsAligned d
Step-Aligned (send_refused q h) v = more_handled v (q, failed) tt
Step-Aligned (send_checked q h) v = v
Step-Aligned (send_queued q rest p h) v = v
Step-Aligned (write_take q rest w n p) v = rehold v (taken q) (ap unqueued n) (λ h. cc)
Step-Aligned (write_filtered q h) v =
    more_handled (rehold v nothing (ap unqueued h) (λ w. refl)) (q, filtered) tt
Step-Aligned (write_encoded q h) v = encode v q h
Step-Aligned (encode_failed q h) v = more_handled (stop v) (q, failed) tt
Step-Aligned (flush_failed q h) v = more_handled (stop v) (q, failed) tt
Step-Aligned (write_queued q h l) v = enqueue v q h
Step-Aligned (write_quits w n h) v = rehold (stop v) _ (ap unqueued (sym n)) (λ h. n)
Step-Aligned (write_drops q h k) v = stop v
Step-Aligned (read_reply x r n l) v = record {
  past = v.past;
  rest = v.rest;
  split = v.split;
  count = v.count;
  no_rest = v.no_rest;
  busy = v.busy;
  idle = λ w. cc (r, w);
  answered = v.answered;
}
Step-Aligned (read_handled q x rest e p) v = deliver v q x rest e p
Step-Aligned (read_failed r n) v = record {
  past = v.past;
  rest = v.rest;
  split = λ h. cc;
  count = v.count;
  no_rest = v.no_rest;
  busy = v.busy;
  idle = λ h. n;
  answered = v.answered;
}
Step-Aligned stopped v = v
Step-Aligned (drain_pending q rest r w d p) v = more_handled v (q, failed) tt
Step-Aligned {c} (drain_processing q rest r w d p) v = record {
  past = v.past;
  rest = v.rest;
  split = λ h. cc (h, r);
  count = v.count;
  no_rest = v.no_rest;
  busy = v.busy;
  idle = v.idle;
  answered = All-append (Answers c.wire) c.handled ((q, failed) ∷ []) v.answered (tt, tt);
}
Step-Aligned (drained r w p s) v = v

start-Aligned : IsAligned new_client
unfolding new_client
start-Aligned = record {
  past = [];
  rest = [];
  split = λ r. refl;
  count = refl;
  no_rest = λ w. refl;
  busy = λ w. refl;
  idle = λ r. refl;
  answered = tt;
}

Reach-Aligned : {c : Client} → Reach new_client c → IsAligned c
Reach-Aligned at_start = start-Aligned
Reach-Aligned (after r s) = Step-Aligned s (Reach-Aligned r)

-- In every state that a new client reaches, by any interleaving of its callers, its writer and its
-- reader, a request that was answered with the n-th reply of the connection is the n-th request that
-- was written to the connection.
pub replies_in_order : {c : Client} → Reach new_client c → All (Answers c.wire) c.handled
replies_in_order r = (Reach-Aligned r).answered
