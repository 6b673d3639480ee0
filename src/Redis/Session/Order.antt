-- ===== src/Redis/Session/Order.antt =====
-- Responses leave in the order of the requests.
use samaritan.Prelude.{
  ℕ, zero, suc, ◌+◌, ◌≡◌, refl, sym, ap, ap₂, ◌∙◌, Option, none, some, List, [], ◌∷◌, ◌++◌,
  append_assoc, append-nil, length, All, All-append, All-weaken, arith,
}
use samaritan.Redis.Resp.{RespValue}
use samaritan.Redis.Session.Defs.{
  Session, new_session, Step, decoded, queued, responded, took, wrote, read_failed, write_failed,
  closed, read_quits, write_quits, Reach, start, next,
}

-- n numbers from a on.
abbrev pub numbers : ℕ → ℕ → List ℕ
numbers zero a = []
numbers (suc n) a = a ∷ numbers n (suc a)

numbers-last : (n a : ℕ) → numbers n a ++ (a + n) ∷ [] ≡ numbers (suc n) a
numbers-last zero a = let e : a + 0 ≡ a = omega arith in rw e refl
numbers-last (suc n) a =
    let e : a + suc n ≡ suc a + n = omega arith in rw e (ap (◌∷◌ a) (numbers-last n (suc a)))

numbers_next : (n : ℕ) → numbers n 0 ++ n ∷ [] ≡ numbers (suc n) 0
numbers_next n = let e : 0 + n ≡ n = omega arith in rw e at (numbers-last n 0)

abbrev one : Option ℕ → List ℕ
one none = []
one (some q) = q ∷ []

abbrev pub requests : List (ℕ × RespValue) → List ℕ
requests [] = []
requests ((q, v) ∷ l) = q ∷ requests l

requests-append :
    (l : List (ℕ × RespValue)) (q : ℕ) (v : RespValue)
    → requests (l ++ (q, v) ∷ []) ≡ requests l ++ q ∷ []
requests-append [] q v = refl
requests-append ((p, w) ∷ l) q v = ap (◌∷◌ p) (requests-append l q v)

-- The requests that were read, by the places where they are: written, with the writer, queued, with
-- the reader.
abbrev places : Session → List ℕ
places s = requests s.written ++ (one s.taken ++ (s.queue ++ one s.in_hand))

abbrev pub IsResponse : (ℕ → Option RespValue) → ℕ × RespValue → Type 0
IsResponse responses (q, v) = responses q ≡ some v

record InOrder (s : Session) : Type 0 where
  all_placed : places s ≡ numbers s.read 0
  own_responses : All (IsResponse s.responses) s.written

Step-InOrder : {s t : Session} → Step s t → InOrder s → InOrder t
Step-InOrder {s} (decoded r h) v = record {
  all_placed =
      regroup (requests s.written) (one s.taken) s.queue (s.read ∷ [])
      ∙ ap (λ (l : List ℕ). l ++ s.read ∷ []) (waiting ∙ v.all_placed)
      ∙ numbers_next s.read;
  own_responses = v.own_responses;
}
  where
    regroup : (a b c d : List ℕ) → a ++ (b ++ (c ++ d)) ≡ (a ++ (b ++ c)) ++ d
    regroup a b c d = simp (append_assoc)

    waiting : requests s.written ++ (one s.taken ++ s.queue) ≡ places s
    waiting = rw h (simp (append-nil))
Step-InOrder {s} (queued q r h l) v = record {
  all_placed =
      ap (λ (l : List ℕ). requests s.written ++ (one s.taken ++ l))
        (append-nil (s.queue ++ q ∷ []) ∙ ap (λ (x : Option ℕ). s.queue ++ one x) (sym h))
      ∙ v.all_placed;
  own_responses = v.own_responses;
}
Step-InOrder {s} (responded rs keep) v = record {
  all_placed = v.all_placed;
  own_responses =
      All-weaken (IsResponse s.responses) (IsResponse rs) s.written (λ (q, x) e. keep q x e)
        v.own_responses;
}
Step-InOrder {s} (took q rest w t e) v = record {
  all_placed =
      ap (λ (l : List ℕ). requests s.written ++ (l ++ one s.in_hand)) (sym e)
      ∙ ap (λ (x : Option ℕ). requests s.written ++ (one x ++ (s.queue ++ one s.in_hand))) (sym t)
      ∙ v.all_placed;
  own_responses = v.own_responses;
}
Step-InOrder {s} (wrote q x w t e) v = record {
  all_placed =
      ap (λ (l : List ℕ). l ++ (s.queue ++ one s.in_hand)) (requests-append s.written q x)
      ∙ append_assoc (requests s.written) (q ∷ []) (s.queue ++ one s.in_hand)
      ∙ ap (λ (y : Option ℕ). requests s.written ++ (one y ++ (s.queue ++ one s.in_hand))) (sym t)
      ∙ v.all_placed;
  own_responses =
      All-append (IsResponse s.responses) s.written ((q, x) ∷ []) v.own_responses (e, tt);
}
Step-InOrder read_failed v = record { all_placed = v.all_placed; own_responses = v.own_responses }
Step-InOrder write_failed v = record { all_placed = v.all_placed; own_responses = v.own_responses }
Step-InOrder closed v = record { all_placed = v.all_placed; own_responses = v.own_responses }
Step-InOrder (read_quits q h e) v = record {
  all_placed = v.all_placed;
  own_responses = v.own_responses;
}
Step-InOrder (write_quits h n) v = record {
  all_placed = v.all_placed;
  own_responses = v.own_responses;
}

new_session-InOrder : InOrder new_session
unfolding new_session
new_session-InOrder = record { all_placed = refl; own_responses = tt }

Reach-InOrder : {s : Session} → Reach s → InOrder s
Reach-InOrder start = new_session-InOrder
Reach-InOrder (next r p) = Step-InOrder p (Reach-InOrder r)

length-requests : (l : List (ℕ × RespValue)) → length (requests l) ≡ length l
length-requests [] = refl
length-requests ((q, v) ∷ l) = ap suc (length-requests l)

-- n numbers from a on begin with as many as a list that they continue has.
prefix : (xs ys : List ℕ) (n a : ℕ) → xs ++ ys ≡ numbers n a → xs ≡ numbers (length xs) a
prefix [] ys n a h = refl
prefix (x ∷ xs) ys zero a h = cc
prefix (x ∷ xs) ys (suc n) a h =
    let e : x ≡ a = cc in
    let t : xs ++ ys ≡ numbers n (suc a) = cc in ap₂ ◌∷◌ e (prefix xs ys n (suc a) t)

-- In every state that a session reaches, by any interleaving of its reader, its writer and those who
-- give responses, the responses that were written are those of the first requests that were read, in
-- the order in which they were read, and each is the one that its request was given.
pub responses_in_order :
    {s : Session}
    → Reach s
    → (requests s.written ≡ numbers (length s.written) 0) × All (IsResponse s.responses) s.written
responses_in_order {s} r =
    let v = Reach-InOrder r in
    (
      prefix (requests s.written) _ s.read 0 v.all_placed
          ∙ ap (λ (n : ℕ). numbers n 0) (length-requests s.written),
      v.own_responses,
    )
