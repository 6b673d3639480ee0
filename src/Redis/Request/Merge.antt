-- ===== src/Redis/Request/Merge.antt =====
-- A split request is answered once, after its last child, whatever the order of the responses.
use samaritan.Prelude.{
  ℕ, zero, suc, ◌+◌, ◌*◌, ◌%◌, ◌^◌, ◌<◌, ◌≤◌, ◌≡◌, refl, sym, ap, ap₂, subst, ◌∙◌, some,
  some-injective, List, [], ◌∷◌, map, length, length-set, get_elem?, set, ◌++◌, arith,
}
use samaritan.Redis.Resp.{RespValue}
use samaritan.Redis.Request.Split.{
  Kind, Child, waiting, responded, done, SplitRequest, merge, sent, responses, set_response,
  on_child_done, Run, start, respond, finish,
}

-- The children whose hooks have not run.
abbrev pub undone : List Child → ℕ
undone [] = 0
undone (done v ∷ cs) = undone cs
undone (_ ∷ cs) = suc (undone cs)

-- The steps that the children have ahead of them.
abbrev pub ahead : List Child → ℕ
ahead [] = 0
ahead (done v ∷ cs) = ahead cs
ahead (responded v ∷ cs) = suc (ahead cs)
ahead (waiting ∷ cs) = suc (suc (ahead cs))

-- A child's response, once it is there, is v.
abbrev Fits : RespValue → Child → Type 0
Fits v waiting = Unit
Fits v (responded w) = w ≡ v
Fits v (done w) = w ≡ v

abbrev Matches : List RespValue → List Child → Type 0
Matches [] [] = Unit
Matches (v ∷ vs) (c ∷ cs) = Fits v c × Matches vs cs
Matches _ _ = ⊥

Matches-set :
    (vs : List RespValue) (cs : List Child) (i : ℕ) (v : RespValue) (c : Child)
    → Matches vs cs
    → get_elem? vs i ≡ some v
    → Fits v c
    → Matches vs (set cs i c)
Matches-set [] [] i v c m e f = m
Matches-set [] (y ∷ cs) i v c m e f = elim m [ ]
Matches-set (x ∷ vs) [] i v c m e f = elim m [ ]
Matches-set (x ∷ vs) (y ∷ cs) zero v c m e f =
    (subst (λ t. Fits t c) (sym (some-injective x v e)) f, m.1)
Matches-set (x ∷ vs) (y ∷ cs) (suc i) v c m e f = (m.0, Matches-set vs cs i v c m.1 e f)

Matches-get :
    (vs : List RespValue) (cs : List Child) (i : ℕ) (v : RespValue)
    → Matches vs cs
    → get_elem? cs i ≡ some (responded v)
    → get_elem? vs i ≡ some v
Matches-get [] [] i v m e = cc
Matches-get [] (y ∷ cs) i v m e = elim m [ ]
Matches-get (x ∷ vs) [] i v m e = elim m [ ]
Matches-get (x ∷ vs) (y ∷ cs) zero v m e =
    ap some (sym (subst (Fits x) (some-injective y (responded v) e) m.0))
Matches-get (x ∷ vs) (y ∷ cs) (suc i) v m e = Matches-get vs cs i v m.1 e

counts-responded :
    (cs : List Child) (i : ℕ) (v : RespValue)
    → get_elem? cs i ≡ some waiting
    → (undone (set cs i (responded v)) ≡ undone cs)
      × (suc (ahead (set cs i (responded v))) ≡ ahead cs)
counts-responded [] i v e = cc
counts-responded (waiting ∷ cs) zero v e = (refl, refl)
counts-responded (responded w ∷ cs) zero v e = cc
counts-responded (done w ∷ cs) zero v e = cc
counts-responded (waiting ∷ cs) (suc i) v e =
    let (a, b) = counts-responded cs i v e in (omega arith, omega arith)
counts-responded (responded w ∷ cs) (suc i) v e =
    let (a, b) = counts-responded cs i v e in (omega arith, omega arith)
counts-responded (done w ∷ cs) (suc i) v e = counts-responded cs i v e

counts-done :
    (cs : List Child) (i : ℕ) (v : RespValue)
    → get_elem? cs i ≡ some (responded v)
    → (suc (undone (set cs i (done v))) ≡ undone cs) × (suc (ahead (set cs i (done v))) ≡ ahead cs)
counts-done [] i v e = cc
counts-done (waiting ∷ cs) zero v e = cc
counts-done (responded w ∷ cs) zero v e = (refl, refl)
counts-done (done w ∷ cs) zero v e = cc
counts-done (waiting ∷ cs) (suc i) v e =
    let (a, b) = counts-done cs i v e in (omega arith, omega arith)
counts-done (responded w ∷ cs) (suc i) v e =
    let (a, b) = counts-done cs i v e in (omega arith, omega arith)
counts-done (done w ∷ cs) (suc i) v e = counts-done cs i v e

undone-le : (cs : List Child) → undone cs ≤ length cs
undone-le [] = omega arith
undone-le (waiting ∷ cs) = omega (arith, undone-le cs)
undone-le (responded w ∷ cs) = omega (arith, undone-le cs)
undone-le (done w ∷ cs) = omega (arith, undone-le cs)

undone-ahead : (cs : List Child) → (undone cs ≤ ahead cs) × (ahead cs ≤ 2 * undone cs)
undone-ahead [] = (omega arith, omega arith)
undone-ahead (waiting ∷ cs) = let (a, b) = undone-ahead cs in (omega arith, omega arith)
undone-ahead (responded w ∷ cs) = let (a, b) = undone-ahead cs in (omega arith, omega arith)
undone-ahead (done w ∷ cs) = undone-ahead cs

responses_all :
    (vs : List RespValue) (cs : List Child) → Matches vs cs → undone cs ≡ 0 → responses cs ≡ vs
responses_all [] [] m u = refl
responses_all [] (y ∷ cs) m u = elim m [ ]
responses_all (x ∷ vs) [] m u = elim m [ ]
responses_all (x ∷ vs) (done w ∷ cs) m u = ap₂ ◌∷◌ m.0 (responses_all vs cs m.1 u)
responses_all (x ∷ vs) (waiting ∷ cs) m u = absurd (omega arith)
responses_all (x ∷ vs) (responded w ∷ cs) m u = absurd (omega arith)

-- The last hook to run finds a response in every child.
responses_complete :
    (vs : List RespValue) (cs : List Child) (i : ℕ) (v : RespValue)
    → Matches vs cs
    → get_elem? cs i ≡ some (responded v)
    → undone cs ≡ 1
    → responses cs ≡ vs
responses_complete [] [] i v m e u = refl
responses_complete [] (y ∷ cs) i v m e u = elim m [ ]
responses_complete (x ∷ vs) [] i v m e u = elim m [ ]
responses_complete (x ∷ vs) (responded w ∷ cs) zero v m e u =
    ap₂ ◌∷◌ m.0 (responses_all vs cs m.1 (omega arith))
responses_complete (x ∷ vs) (done w ∷ cs) zero v m e u = cc
responses_complete (x ∷ vs) (waiting ∷ cs) zero v m e u = cc
responses_complete (x ∷ vs) (done w ∷ cs) (suc i) v m e u =
    ap₂ ◌∷◌ m.0 (responses_complete vs cs i v m.1 e u)
responses_complete (x ∷ vs) (responded w ∷ cs) (suc i) v m e u =
    absurd (omega (arith, counts-done cs i v e))
responses_complete (x ∷ vs) (waiting ∷ cs) (suc i) v m e u =
    absurd (omega (arith, counts-done cs i v e))

-- What every run keeps.
record Kept (k : Kind) (vs : List RespValue) (n : ℕ) (r : SplitRequest) : Type 0 where
  same_kind : r.kind ≡ k
  matching : Matches vs r.children
  size : length r.children ≡ length vs
  wait : r.child_wait ≡ undone r.children
  steps : n + ahead r.children ≡ 2 * length vs
  silent : 0 < undone r.children → r.answers ≡ []
  answered : undone r.children ≡ 0 → r.answers ≡ merge k vs ∷ []

all_waiting :
    (bodies vs : List RespValue)
    → length bodies ≡ length vs
    → let cs = map (λ (b : RespValue). waiting) bodies in
      Matches vs cs × (length cs ≡ length vs) × (undone cs ≡ length vs) × (ahead cs ≡ 2 * length vs)
all_waiting [] [] e = (tt, refl, refl, omega arith)
all_waiting [] (v ∷ vs) e = absurd (omega arith)
all_waiting (b ∷ bs) [] e = absurd (omega arith)
all_waiting (b ∷ bs) (v ∷ vs) e =
    let (m, l, u, a) = all_waiting bs vs (omega arith) in
    ((tt, m), omega arith, omega arith, omega arith)

respond-Kept :
    {k : Kind} {vs : List RespValue} {n : ℕ} {r : SplitRequest} (i : ℕ) (v : RespValue)
    → Kept k vs n r
    → get_elem? r.children i ≡ some waiting
    → get_elem? vs i ≡ some v
    → Kept k vs (suc n) (set_response r i v)
unfolding set_response
respond-Kept {k} {vs} {n} {r} i v kept free given =
    let (u, a) = counts-responded r.children i v free in
    record {
      same_kind = kept.same_kind;
      matching = Matches-set vs r.children i v (responded v) kept.matching given refl;
      size = length-set r.children i (responded v) ∙ kept.size;
      wait = kept.wait ∙ sym u;
      steps = omega (arith, kept.steps);
      silent = λ h. kept.silent (omega arith);
      answered = λ h. kept.answered (omega arith);
    }

-- The hook's count, and what it does when the count is 0 and when it is not.
counted :
    (r : SplitRequest) (i : ℕ) (v : RespValue) (u : ℕ)
    → r.child_wait ≡ suc u
    → suc u < 2 ^ 32
    → let r' = on_child_done r i v in
      (r'.child_wait ≡ u)
      × (0 < u → r'.answers ≡ r.answers)
      × (u ≡ 0 → r'.answers ≡ r.answers ++ merge r.kind (responses r.children) ∷ [])
unfolding on_child_done
counted r i v u e small =
    let now : (r.child_wait + 0xffff_ffff) % 2 ^ 32 ≡ u = omega arith in
    rw now (refl, λ h. ground arith, λ h. ground arith)

finish-Kept :
    {k : Kind} {vs : List RespValue} {n : ℕ} {r : SplitRequest} (i : ℕ) (v : RespValue)
    → length vs < 2 ^ 32
    → Kept k vs n r
    → get_elem? r.children i ≡ some (responded v)
    → Kept k vs (suc n) (on_child_done r i v)
finish-Kept {k} {vs} {n} {r} i v small kept given =
    let (u, a) = counts-done r.children i v given in
    let cs = set r.children i (done v) in
    let (wait', quiet, answer) =
      counted r i v (undone cs) (kept.wait ∙ sym u)
        (omega (arith, undone-le r.children, kept.size)) in
    let before = kept.silent (omega arith) in
    unfold on_child_done in
    record {
      same_kind = kept.same_kind;
      matching =
          Matches-set vs r.children i v (done v) kept.matching
            (Matches-get vs r.children i v kept.matching given) refl;
      size = length-set r.children i (done v) ∙ kept.size;
      wait = wait';
      steps = omega (arith, kept.steps);
      silent = λ h. quiet h ∙ before;
      answered = λ h.
          answer h
          ∙ ap (λ (l : List RespValue). l ++ merge r.kind (responses r.children) ∷ []) before
          ∙ ap₂ (λ (x : Kind) (y : List RespValue). merge x y ∷ []) kept.same_kind
              (responses_complete vs r.children i v kept.matching given (omega arith));
    }

-- Every command that is split has a child.
Run-Kept :
    {k : Kind} {vs : List RespValue} {n : ℕ} {r : SplitRequest}
    → 0 < length vs
    → length vs < 2 ^ 32
    → Run k vs n r
    → Kept k vs n r
unfolding sent
Run-Kept {k} {vs} some_child small (start bodies e) =
    let (m, l, u, a) = all_waiting bodies vs e in
    record {
      same_kind = refl;
      matching = m;
      size = l;
      wait = omega arith;
      steps = omega arith;
      silent = λ h. refl;
      answered = λ h. absurd (omega arith);
    }
Run-Kept some_child small (respond i v run free given) =
    respond-Kept i v (Run-Kept some_child small run) free given
Run-Kept some_child small (finish i v run given) =
    finish-Kept i v small (Run-Kept some_child small run) given

-- A request that is split into n children, at least one and fewer than 2^32, takes at most 2n steps,
-- in which each child gets its response and runs its hook. Before the last of them the raw request
-- has no response, and after the last it has exactly one: the responses merged in the order of the
-- children, whatever the order in which they came.
pub answered_once :
    {k : Kind} {vs : List RespValue} {n : ℕ} {r : SplitRequest}
    → 0 < length vs
    → length vs < 2 ^ 32
    → Run k vs n r
    → (n ≤ 2 * length vs)
      × (n < 2 * length vs → r.answers ≡ [])
      × (n ≡ 2 * length vs → r.answers ≡ merge k vs ∷ [])
answered_once {r = r} some_child small run =
    let kept = Run-Kept some_child small run in
    let (le, ge) = undone-ahead r.children in
    (
      omega (arith, kept.steps),
      λ h. kept.silent (omega (arith, kept.steps)),
      λ h. kept.answered (omega (arith, kept.steps)),
    )
