-- ===== src/Tcp/Known.antt =====
-- The addresses that a set of hosts knows after hosts are added and removed.
use samaritan.Prelude.{
  ℕ, ◌+◌, ◌<◌, ◌≡◌, refl, ap, ◌∙◌, inl, inr, Bool, true, false, not, ◌&&◌, ◌||◌, Bool-cases, Option,
  none, some, List, [], ◌∷◌, Bytes, bytes_equal, ◌==◌, arith,
}
use samaritan.Prelude.Assoc.{lookup, insert, delete, lookup-insert, lookup-delete}
use samaritan.Host.Defs.{
  HostType, main, backup, other, Host, new_with_type, Heap, update, HostMap, HostSet,
  build_healthy_cache, add_healthy_one, remove_healthy_one, each, add_to_healthy,
  remove_from_healthy, put_one, drop_one, add, new_set, State, remove, exist,
}
use samaritan.Controller.Defs.{SvcHost}
use samaritan.Controller.Hosts.{any_host}
use samaritan.Tcp.Defs.{laid, pointers, type_of}

-- Whether one of the pointers is to a host of the address.
abbrev pub named : Heap → List ℕ → Bytes → Bool
named h [] a = false
named h (p ∷ ps) a = bytes_equal (h p).addr a || named h ps a

named-update :
    (h : Heap) (k j : ℕ) (v : Host) (xs : List SvcHost) (a : Bytes)
    → k < j
    → named (update h k v) (pointers xs j) a ≡ named h (pointers xs j) a
unfolding pointers
named-update h k j v [] a lt = refl
named-update h k j v (x ∷ xs) a lt =
    let apart : k == j ≡ false = ground arith in
    rw (apart, named-update h k (j + 1) v xs a (omega arith)) refl

pub named-laid :
    (xs : List SvcHost) (k : ℕ) (h : Heap) (a : Bytes)
    → named (laid xs k h) (pointers xs k) a ≡ any_host xs a
unfolding laid pointers new_with_type
named-laid [] k h a = refl
named-laid (x ∷ xs) k h a =
    let same : k == k ≡ true = ground arith in
    rw
      (
        same,
        named-update (laid xs (k + 1) h) k (k + 1) (new_with_type x.addr (type_of x)) xs a
            (omega arith),
        named-laid xs (k + 1) h a,
      )
      refl

abbrev is_some : Option ℕ → Bool
is_some o = elim o [ none ↦ false | some p ↦ true ]

abbrev knows : HostMap → Bytes → Bool
knows m a = is_some (lookup a m)

knows-insert :
    (k a : Bytes) (p : ℕ) (m : HostMap) → knows (insert k p m) a ≡ (bytes_equal k a || knows m a)
knows-insert k a p m =
    ap is_some (lookup-insert k a p m)
    ∙ elim (Bool-cases (bytes_equal k a)) [ inl e ↦ rw e refl | inr e ↦ rw e refl ]

knows-delete :
    (k a : Bytes) (m : HostMap) → knows (delete k m) a ≡ (knows m a && not (bytes_equal k a))
knows-delete k a m = ap is_some (lookup-delete k a m) ∙ elim (Bool-cases (bytes_equal k a)) [
  | inl e ↦ rw e (ground arith)
  | inr e ↦ rw e (ground arith)
]

each_put :
    (h : Heap) (s : HostSet) (ps : List ℕ) (a : Bytes)
    → knows (each (put_one h) s ps).all a ≡ (named h ps a || knows s.all a)
each_put h s [] a = refl
each_put h s (p ∷ ps) a =
    each_put h (put_one h s p) ps a
    ∙ ap (λ (b : Bool). named h ps a || b) (knows-insert (h p).addr a p s.all)
    ∙ ground arith

each_drop :
    (h : Heap) (s : HostSet) (ps : List ℕ) (a : Bytes)
    → knows (each (drop_one h) s ps).all a ≡ (knows s.all a && not (named h ps a))
each_drop h s [] a = ground arith
each_drop h s (p ∷ ps) a =
    each_drop h (drop_one h s p) ps a
    ∙ ap (λ (b : Bool). b && not (named h ps a)) (knows-delete (h p).addr a s.all)
    ∙ ground arith

add_one_all :
    (h : Heap) (s : HostSet) (p : ℕ) (t : HostType)
    → (h p).typ ≡ t
    → (add_healthy_one h s p).all ≡ s.all
unfolding add_healthy_one
add_one_all h s p main e = rw (e, add_healthy_one) refl
add_one_all h s p backup e = rw (e, add_healthy_one) refl
add_one_all h s p (other n) e = rw (e, add_healthy_one) refl

remove_one_all :
    (h : Heap) (s : HostSet) (p : ℕ) (t : HostType)
    → (h p).typ ≡ t
    → (remove_healthy_one h s p).all ≡ s.all
unfolding remove_healthy_one
remove_one_all h s p main e = rw (e, remove_healthy_one) refl
remove_one_all h s p backup e = rw (e, remove_healthy_one) refl
remove_one_all h s p (other n) e = rw (e, remove_healthy_one) refl

-- A loop whose rounds leave `all` alone leaves it alone.
each_all :
    (f : HostSet → ℕ → HostSet) (s : HostSet) (ps : List ℕ)
    → ((t : HostSet) (p : ℕ) → (f t p).all ≡ t.all)
    → (each f s ps).all ≡ s.all
each_all f s [] one = refl
each_all f s (p ∷ ps) one = each_all f (f s p) ps one ∙ one s p

add_to_healthy_all : (h : Heap) (s : HostSet) (ps : List ℕ) → (add_to_healthy h s ps).all ≡ s.all
unfolding add_to_healthy build_healthy_cache
add_to_healthy_all h s [] = refl
add_to_healthy_all h s (p ∷ ps) =
    each_all (add_healthy_one h) s (p ∷ ps) (λ t q. add_one_all h t q (h q).typ refl)

remove_from_healthy_all :
    (h : Heap) (s : HostSet) (ps : List ℕ) → (remove_from_healthy h s ps).all ≡ s.all
unfolding remove_from_healthy build_healthy_cache
remove_from_healthy_all h s [] = refl
remove_from_healthy_all h s (p ∷ ps) =
    each_all (remove_healthy_one h) s (p ∷ ps) (λ t q. remove_one_all h t q (h q).typ refl)

pub exist-add :
    (h : Heap) (s : HostSet) (ps : List ℕ) (a : Bytes)
    → exist (add h s ps) a ≡ (named h ps a || exist s a)
unfolding add exist
exist-add h s [] a = refl
exist-add h s (p ∷ ps) a =
    ap (λ m. knows m a) (add_to_healthy_all h (each (put_one h) s (p ∷ ps)) (p ∷ ps))
    ∙ each_put h s (p ∷ ps) a

pub exist-remove :
    (s : State) (ps : List ℕ) (a : Bytes)
    → exist (remove s ps).set a ≡ (exist s.set a && not (named s.heap ps a))
unfolding remove exist
exist-remove s [] a = ground arith
exist-remove s (p ∷ ps) a =
    ap (λ m. knows m a)
      (remove_from_healthy_all s.heap (each (drop_one s.heap) s.set (p ∷ ps)) (p ∷ ps))
    ∙ each_drop s.heap s.set (p ∷ ps) a

pub exist-new_set : (h : Heap) (ps : List ℕ) (a : Bytes) → exist (new_set h ps) a ≡ named h ps a
unfolding new_set lookup
exist-new_set h ps a = exist-add h _ ps a ∙ unfold exist in ground arith
