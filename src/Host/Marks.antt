-- ===== src/Host/Marks.antt =====
-- What MarkHostHealthy, MarkHostUnhealthy and Remove do to the maps of healthy hosts.
use samaritan.Prelude.{
  ℕ, ◌≡◌, refl, ap, ◌∙◌, Bool, true, false, subst, Option, none, some, [], ◌∷◌, Bytes,
  bytes_equal_refl, arith,
}
use samaritan.Prelude.Assoc.{lookup, insert, delete, lookup-insert, lookup-delete}
use samaritan.Host.Defs.{
  HostType, main, backup, other, Host, Heap, update, HostSet, HostMap, State, build_healthy_cache,
  add_healthy_one, remove_healthy_one, add_to_healthy, remove_from_healthy, remove,
  mark_host_healthy, mark_host_unhealthy, is_known, exist, drop_one,
}

-- The map of healthy hosts of a type.
abbrev pub healthy_of : HostType → HostSet → HostMap
healthy_of main s = s.healthy_main
healthy_of backup s = s.healthy_backup
healthy_of (other n) s = []

lookup-insert_self : (k : Bytes) (p : ℕ) (m : HostMap) → lookup k (insert k p m) ≡ some p
lookup-insert_self k p m = lookup-insert k k p m ∙ ground (arith, bytes_equal_refl k)

lookup-delete_self : (k : Bytes) (m : HostMap) → lookup k (delete k m) ≡ none
lookup-delete_self k m = lookup-delete k k m ∙ ground (arith, bytes_equal_refl k)

remove_healthy_one_main :
    (h : Heap) (s : HostSet) (p : ℕ)
    → (h p).typ ≡ main
    → remove_healthy_one h s p ≡ record s { healthy_main = delete (h p).addr s.healthy_main }
unfolding remove_healthy_one
remove_healthy_one_main h s p e = rw (e, remove_healthy_one)

remove_healthy_one_backup :
    (h : Heap) (s : HostSet) (p : ℕ)
    → (h p).typ ≡ backup
    → remove_healthy_one h s p ≡ record s { healthy_backup = delete (h p).addr s.healthy_backup }
unfolding remove_healthy_one
remove_healthy_one_backup h s p e = rw (e, remove_healthy_one)

add_healthy_one_main :
    (h : Heap) (s : HostSet) (p : ℕ)
    → (h p).typ ≡ main
    → add_healthy_one h s p ≡ record s { healthy_main = insert (h p).addr p s.healthy_main }
unfolding add_healthy_one
add_healthy_one_main h s p e = rw (e, add_healthy_one)

add_healthy_one_backup :
    (h : Heap) (s : HostSet) (p : ℕ)
    → (h p).typ ≡ backup
    → add_healthy_one h s p ≡ record s { healthy_backup = insert (h p).addr p s.healthy_backup }
unfolding add_healthy_one
add_healthy_one_backup h s p e = rw (e, add_healthy_one)

removed_lem :
    (h : Heap) (s : HostSet) (p : ℕ) (t : HostType)
    → (h p).typ ≡ t
    → lookup (h p).addr (healthy_of t (remove_from_healthy h s (p ∷ []))) ≡ none
unfolding remove_from_healthy build_healthy_cache
removed_lem h s p main e =
    ap (λ (x : HostSet). lookup (h p).addr x.healthy_main) (remove_healthy_one_main h s p e)
    ∙ lookup-delete_self (h p).addr s.healthy_main
removed_lem h s p backup e =
    ap (λ (x : HostSet). lookup (h p).addr x.healthy_backup) (remove_healthy_one_backup h s p e)
    ∙ lookup-delete_self (h p).addr s.healthy_backup
removed_lem h s p (other n) e = unfold lookup in refl

abbrev pub entry_for : HostType → ℕ → Option ℕ
entry_for (other n) p = none
entry_for _ p = some p

added_lem :
    (h : Heap) (s : HostSet) (p : ℕ) (t : HostType)
    → (h p).typ ≡ t
    → lookup (h p).addr (healthy_of t (add_to_healthy h s (p ∷ []))) ≡ entry_for t p
unfolding add_to_healthy build_healthy_cache
added_lem h s p main e =
    ap (λ (x : HostSet). lookup (h p).addr x.healthy_main) (add_healthy_one_main h s p e)
    ∙ lookup-insert_self (h p).addr p s.healthy_main
added_lem h s p backup e =
    ap (λ (x : HostSet). lookup (h p).addr x.healthy_backup) (add_healthy_one_backup h s p e)
    ∙ lookup-insert_self (h p).addr p s.healthy_backup
added_lem h s p (other n) e = unfold lookup in refl

-- The host with its health set and its two counters cleared.
abbrev pub marked : Bool → Host → Host
marked b h = record h {
  stats = record (h.stats) { is_healthy = b; failed_count = 0; successful_count = 0 };
}

abbrev heap_marked : Bool → State → ℕ → Heap
heap_marked b s p = update s.heap p (marked b (s.heap p))

at_marked : (b : Bool) (s : State) (p : ℕ) → heap_marked b s p p ≡ marked b (s.heap p)
at_marked b s p = ground arith

unhealthy_eq :
    (s : State) (p : ℕ)
    → (s.heap p).stats.is_healthy ≡ true
    → is_known s.set (s.heap p).addr ≡ true
    → mark_host_unhealthy s p ≡ (
      record {
        heap = heap_marked false s p;
        set = remove_from_healthy (heap_marked false s p) s.set (p ∷ []);
      },
      true,
    )
unfolding mark_host_unhealthy
unhealthy_eq s p h k = rw (h, k)

healthy_eq :
    (s : State) (p : ℕ)
    → (s.heap p).stats.is_healthy ≡ false
    → is_known s.set (s.heap p).addr ≡ true
    → mark_host_healthy s p ≡ (
      record {
        heap = heap_marked true s p;
        set = add_to_healthy (heap_marked true s p) s.set (p ∷ []);
      },
      true,
    )
unfolding mark_host_healthy
healthy_eq s p h k = rw (h, k)

unhealthy_again :
    (s : State) (p : ℕ) → (s.heap p).stats.is_healthy ≡ false → (mark_host_unhealthy s p).1 ≡ false
unfolding mark_host_unhealthy
unhealthy_again s p h = rw h

healthy_again :
    (s : State) (p : ℕ) → (s.heap p).stats.is_healthy ≡ true → (mark_host_healthy s p).1 ≡ false
unfolding mark_host_healthy
healthy_again s p h = rw h

-- Marking a known, healthy host unhealthy returns true, clears its flag and counters and takes it
-- out of the healthy hosts of its type; marking it again returns false.
pub mark_unhealthy-effect :
    (s : State) (p : ℕ)
    → (s.heap p).stats.is_healthy ≡ true
    → exist s.set (s.heap p).addr ≡ true
    → let (s', changed) = mark_host_unhealthy s p in
      (changed ≡ true)
      × (s'.heap p ≡ marked false (s.heap p))
      × (lookup (s.heap p).addr (healthy_of (s.heap p).typ s'.set) ≡ none)
      × ((mark_host_unhealthy s' p).1 ≡ false)
unfolding exist
mark_unhealthy-effect s p h k =
    let at_p = at_marked false s p in
    let heap' = heap_marked false s p in
    rw (unhealthy_eq s p h k) (
      refl,
      at_p,
      subst
          (λ (x : Host).
            lookup x.addr (healthy_of x.typ (remove_from_healthy heap' s.set (p ∷ []))) ≡ none)
          at_p (removed_lem heap' s.set p (heap' p).typ refl),
      unhealthy_again _ p (ap (λ (x : Host). x.stats.is_healthy) at_p),
    )

-- Marking a known, unhealthy host healthy returns true, sets its flag, clears its counters and
-- enters it under its address among the healthy hosts of its type; marking it again returns false.
pub mark_healthy-effect :
    (s : State) (p : ℕ)
    → (s.heap p).stats.is_healthy ≡ false
    → exist s.set (s.heap p).addr ≡ true
    → let (s', changed) = mark_host_healthy s p in
      (changed ≡ true)
      × (s'.heap p ≡ marked true (s.heap p))
      × (lookup (s.heap p).addr (healthy_of (s.heap p).typ s'.set) ≡ entry_for (s.heap p).typ p)
      × ((mark_host_healthy s' p).1 ≡ false)
unfolding exist
mark_healthy-effect s p h k =
    let at_p = at_marked true s p in
    let heap' = heap_marked true s p in
    rw (healthy_eq s p h k) (
      refl,
      at_p,
      subst
          (λ (x : Host).
            lookup x.addr (healthy_of x.typ (add_to_healthy heap' s.set (p ∷ [])))
            ≡ entry_for x.typ p)
          at_p (added_lem heap' s.set p (heap' p).typ refl),
      healthy_again _ p (ap (λ (x : Host). x.stats.is_healthy) at_p),
    )

not_known : (s : HostSet) (a : Bytes) → lookup a s.all ≡ none → is_known s a ≡ false
not_known s a h = rw (h, is_known)

-- A host that Remove is given under the address of another, with the other type, takes the address
-- out of the set and leaves the registered host among the healthy ones.
pub remove_other_type :
    (s : State) (p q : ℕ)
    → (s.heap q).typ ≡ backup
    → (s.heap q).addr ≡ (s.heap p).addr
    → lookup (s.heap p).addr s.set.healthy_main ≡ some p
    → let s' = remove s (q ∷ []) in
      (exist s'.set (s.heap p).addr ≡ false) × (lookup (s.heap p).addr s'.set.healthy_main ≡ some p)
unfolding remove remove_from_healthy build_healthy_cache exist
remove_other_type s p q t e h =
    let dropped = drop_one s.heap s.set q in
    let kept = remove_healthy_one_backup s.heap dropped q t in
    let gone : lookup (s.heap p).addr (delete (s.heap q).addr s.set.all) ≡ none =
      rw e (lookup-delete_self (s.heap p).addr s.set.all) in
    (
      not_known (remove s (q ∷ [])).set (s.heap p).addr
          (ap (λ (x : HostSet). lookup (s.heap p).addr x.all) kept ∙ gone),
      ap (λ (x : HostSet). lookup (s.heap p).addr x.healthy_main) kept ∙ h,
    )
