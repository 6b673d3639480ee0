-- ===== src/Redis/Upstream/Targets.antt =====
-- Where a request is sent.
use samaritan.Prelude.{
  ℕ, zero, suc, ◌%◌, ◌<◌, ◌≡◌, refl, sym, ◌⊎◌, inl, inr, true, false, Bool-cases, Option, some,
  List, [], ◌∷◌, ◌++◌, Bytes, bytes, bytes_equal, length, some-injective, get_elem?, get_elem?-some,
  ltb, if◌then◌else◌, All, arith,
}
use native.Mathlib.Nat.{mod-lt}
use samaritan.Redis.Resp.{RespValue, new_error}
use samaritan.Redis.Slot.Hashtag.{slot_of}
use samaritan.Redis.Request.ReadOnly.{is_read_only, to_lower}
use samaritan.Redis.Nodes.Segments.{split_by}
use samaritan.Redis.Nodes.Ranges.{Without, split_by-single, split_by-append}
use samaritan.Redis.Nodes.Cluster.{Instance}
use samaritan.Redis.Client.Defs.{error_prefix, handle_resp, redirects}
use samaritan.Redis.Upstream.Route.{
  ReadStrategy, master, both, replica, other, Slots, replica_addrs, by_strategy, or_else,
  candidates, pick, choose_host, request, asking, third, handle_redirection,
}

abbrev pub In : Bytes → List Bytes → Type 0
In a l = (i : ℕ) × (get_elem? l i ≡ some a)

pick-In : (now : ℕ) (l : List Bytes) → 0 < length l → (a : Bytes) × (pick now l ≡ some a) × In a l
pick-In now l h =
    let i = if ltb 1 (length l) then now % length l else 0 in
    let (a, e) = get_elem?-some l i (ground (arith, mod-lt now {m = length l} h)) in (a, e, (i, e))

-- Where a read-only request may go.
abbrev pub MayRead : ReadStrategy → Instance → Bytes → Type 0
MayRead master inst a = a ≡ inst.addr
MayRead both inst a = In a (inst.addr ∷ replica_addrs inst)
MayRead replica inst a = In a (replica_addrs inst) ⊎ (replica_addrs inst ≡ []) × (a ≡ inst.addr)
MayRead (other n) inst a = a ≡ inst.addr

only : (a b : Bytes) → In a (b ∷ []) → a ≡ b
only a b (zero, e) = sym (some-injective b a e)
only a b (suc i, e) = cc

In-or_else : (a m : Bytes) (l : List Bytes) → In a (or_else m l) → In a l ⊎ (l ≡ []) × (a ≡ m)
In-or_else a m [] h = inr (refl, only a m h)
In-or_else a m (b ∷ l) h = inl h

candidates-MayRead :
    (s : ReadStrategy) (inst : Instance) (a : Bytes) → In a (candidates s inst) → MayRead s inst a
unfolding candidates
candidates-MayRead master inst a h = only a inst.addr h
candidates-MayRead both inst a h = h
candidates-MayRead (other n) inst a h = only a inst.addr h
candidates-MayRead replica inst a h = In-or_else a inst.addr (replica_addrs inst) h

candidates_some : (s : ReadStrategy) (inst : Instance) → 0 < length (candidates s inst)
unfolding candidates
candidates_some s inst = some_of inst.addr (by_strategy s inst)
  where
    some_of : (m : Bytes) (l : List Bytes) → 0 < length (or_else m l)
    some_of m [] = omega arith
    some_of m (a ∷ l) = omega arith

-- For a key whose slot has an instance, a host is chosen, without regard to the hosts that randomHost
-- would choose from. A request that may write goes to the master. A read-only one goes where the
-- read strategy says: to the master, to the master or a replica, or to a replica if there is one and
-- else to the master; and to the master under an unknown strategy.
pub choose_host-target :
    (s : ReadStrategy) (slots : Slots) (random : Option Bytes) (now : ℕ) (key : Bytes)
    (body : List RespValue) (inst : Instance)
    → slots (slot_of key) ≡ some inst
    → (a : Bytes) × (choose_host s slots random now key body ≡ some a)
      × (is_read_only body ≡ false → a ≡ inst.addr)
      × (is_read_only body ≡ true → MayRead s inst a)
unfolding choose_host
choose_host-target s slots random now key body inst e = elim (Bool-cases (is_read_only body)) [
  | inl r ↦
      let (a, p, here) = pick-In now (candidates s inst) (candidates_some s inst) in
      (a, rw (e, r) p, λ w. cc (r, w), λ _. candidates-MayRead s inst a here)
  | inr r ↦ (inst.addr, rw (e, r) refl, λ _. refl, λ w. cc (r, w))
]

abbrev pub NoSpace : Bytes → Type 0
NoSpace b = All (Without b' ') b

third_word :
    (word slot addr : Bytes)
    → NoSpace word
    → NoSpace slot
    → NoSpace addr
    → third (split_by b' ' (word ++ b' ' ∷ (slot ++ b' ' ∷ addr))) ≡ some (word, addr)
third_word word slot addr w s a =
    rw
      (
        split_by-append b' ' word (slot ++ b' ' ∷ addr) w,
        split_by-append b' ' slot addr s,
        split_by-single b' ' addr a,
      )
      refl

prefix_word : (word rest : Bytes) → NoSpace word → error_prefix (word ++ b' ' ∷ rest) ≡ some word
unfolding error_prefix
prefix_word [] rest w = ground arith
prefix_word (c ∷ word) rest w = ground (arith, prefix_word word rest w.1)

-- A redirection as Redis prints it.
abbrev pub redirection : Bytes → Bytes → Bytes → RespValue
redirection word slot addr = new_error (word ++ b' ' ∷ (slot ++ b' ' ∷ addr))

-- An error of MOVED or ASK in any case, a slot and an address, without spaces in them, is handed to
-- handleRedirection, which sends the request to that address: after MOVED the request alone, after
-- ASK first the command ASKING and then the request.
pub redirection-followed :
    (word slot addr : Bytes)
    → NoSpace word
    → NoSpace slot
    → NoSpace addr
    → (to_lower word ≡ bytes "moved"
        → (handle_resp (redirection word slot addr) ≡ redirects)
          × (handle_redirection (redirection word slot addr) ≡ some (request addr ∷ [])))
      × (to_lower word ≡ bytes "ask"
          → (handle_resp (redirection word slot addr) ≡ redirects)
            × (handle_redirection (redirection word slot addr)
                ≡ some (asking addr ∷ request addr ∷ [])))
unfolding handle_resp handle_redirection bytes_equal
redirection-followed word slot addr w s a =
    let p = prefix_word word (slot ++ b' ' ∷ addr) w in
    let t = third_word word slot addr w s a in
    (
      λ l. (rw (p, handle_resp, l) refl, rw (t, handle_redirection, l) refl),
      λ l. (rw (p, handle_resp, l) refl, rw (t, handle_redirection, l) refl),
    )
