-- ===== src/Host/Cache.antt =====
-- The cache of the healthy hosts always shows the current maps.
use mathlib.Core.List.{Perm}
use mathlib.Core.List.Perm
use samaritan.Prelude.{
  ℕ, ◌≡◌, refl, ap, inl, inr, Bool-cases, some, List, [], ◌∷◌, map, length, Bytes, bytes_equal,
  bytes_equal_refl, All, All-weaken, ◌==◌, if◌then◌else◌, arith,
}
use samaritan.Prelude.Assoc.{lookup, keys}
use samaritan.Host.Sorted.{Ascending, sort_strings-Ascending, sort_strings-perm, All-sort_strings}
use samaritan.Host.Defs.{
  Heap, HostMap, HostSet, State, found, sort_strings, hosts_by, healthy, build_healthy_cache,
  add_to_healthy, remove_from_healthy, add, new_set, remove, mark_host_healthy, mark_host_unhealthy,
  remove_each, values, replace_all, is_known,
}
use samaritan.Host.Steps.{
  Call, add_hosts, remove_hosts, replace_hosts, mark_healthy, mark_unhealthy, after, Reach, start,
  call,
}

-- The map that serves: the backup hosts, if no main host is healthy.
abbrev pub serving : HostMap → HostMap → HostMap
serving [] backups = backups
serving (m ∷ mains) backups = m ∷ mains

-- The cache holds the hosts of that map, one for each address, by ascending address.
abbrev pub IsCached : HostSet → Type 0
IsCached s =
    (addrs : List Bytes) × Perm addrs (keys (serving s.healthy_main s.healthy_backup))
    × Ascending addrs
    × (map some s.healthy_cache
        ≡ map (λ a. lookup a (serving s.healthy_main s.healthy_backup)) addrs)

healthy_lem : (s : HostSet) → healthy s ≡ serving s.healthy_main s.healthy_backup
unfolding healthy
healthy_lem s = by_mains s.healthy_main
  where
    by_mains :
        (m : HostMap) → (if length m == 0 then s.healthy_backup else m) ≡ serving m s.healthy_backup
    by_mains [] = refl
    by_mains (x ∷ m) = ground arith

abbrev IsFound : HostMap → Bytes → Type 0
IsFound m a = (p : ℕ) × (lookup a m ≡ some p)

IsFound-cons : (j : Bytes) (w : ℕ) (m : HostMap) (a : Bytes) → IsFound m a → IsFound ((j, w) ∷ m) a
unfolding lookup
IsFound-cons j w m a (p, e) = elim (Bool-cases (bytes_equal j a)) [
  | inl f ↦ (w, rw f refl)
  | inr f ↦ (p, rw f e)
]

keys-IsFound : (m : HostMap) → All (IsFound m) (keys m)
unfolding keys lookup
keys-IsFound [] = tt
keys-IsFound ((j, w) ∷ m) = (
  (w, rw (bytes_equal_refl j) refl),
  All-weaken (IsFound m) _ (keys m) (λ a f. IsFound-cons j w m a f) (keys-IsFound m),
)

hosts_by-found :
    (m : HostMap) (ks : List Bytes)
    → All (IsFound m) ks
    → map some (hosts_by m ks) ≡ map (λ a. lookup a m) ks
unfolding hosts_by
hosts_by-found m [] all = refl
hosts_by-found m (k ∷ ks) all =
    let (p, e) = all.0 in rw (e, found) (ap (◌∷◌ (some p)) (hosts_by-found m ks all.1))

build-IsCached : (s : HostSet) → IsCached (build_healthy_cache s)
unfolding build_healthy_cache
build-IsCached s =
    let m = serving s.healthy_main s.healthy_backup in
    rw (healthy_lem s) (
      sort_strings (keys m),
      sort_strings-perm (keys m),
      sort_strings-Ascending (keys m),
      hosts_by-found m (sort_strings (keys m)) (All-sort_strings _ (keys m) (keys-IsFound m)),
    )

add-IsCached : (h : Heap) (s : HostSet) (ps : List ℕ) → IsCached s → IsCached (add h s ps)
unfolding add add_to_healthy
add-IsCached h s [] c = c
add-IsCached h s (p ∷ ps) c = build-IsCached _

remove-IsCached : (s : State) (ps : List ℕ) → IsCached s.set → IsCached (remove s ps).set
unfolding remove remove_from_healthy
remove-IsCached s [] c = c
remove-IsCached s (p ∷ ps) c = build-IsCached _

remove_each-IsCached : (s : State) (ps : List ℕ) → IsCached s.set → IsCached (remove_each s ps).set
remove_each-IsCached s [] c = c
remove_each-IsCached s (p ∷ ps) c =
    remove_each-IsCached (remove s (p ∷ [])) ps (remove-IsCached s (p ∷ []) c)

mark_healthy-IsCached :
    (s : State) (p : ℕ) → IsCached s.set → IsCached (mark_host_healthy s p).0.set
unfolding mark_host_healthy add_to_healthy
mark_healthy-IsCached s p c = elim (Bool-cases (s.heap p).stats.is_healthy) [
  | inl e ↦ rw e c
  | inr e ↦ elim (Bool-cases (is_known s.set (s.heap p).addr)) [
    | inl k ↦ rw (e, k) (build-IsCached _)
    | inr k ↦ rw (e, k) c
  ]
]

mark_unhealthy-IsCached :
    (s : State) (p : ℕ) → IsCached s.set → IsCached (mark_host_unhealthy s p).0.set
unfolding mark_host_unhealthy remove_from_healthy
mark_unhealthy-IsCached s p c = elim (Bool-cases (s.heap p).stats.is_healthy) [
  | inr e ↦ rw e c
  | inl e ↦ elim (Bool-cases (is_known s.set (s.heap p).addr)) [
    | inl k ↦ rw (e, k) (build-IsCached _)
    | inr k ↦ rw (e, k) c
  ]
]

after-IsCached : (s : State) (c : Call) → IsCached s.set → IsCached (after s c).set
unfolding after replace_all
after-IsCached s (add_hosts ps) h = add-IsCached s.heap s.set ps h
after-IsCached s (remove_hosts ps) h = remove-IsCached s ps h
after-IsCached s (replace_hosts ps) h =
    let t = remove_each s (values s.set.all) in
    add-IsCached t.heap t.set ps (remove_each-IsCached s (values s.set.all) h)
after-IsCached s (mark_healthy p) h = mark_healthy-IsCached s p h
after-IsCached s (mark_unhealthy p) h = mark_unhealthy-IsCached s p h

-- In every state that calls lead to from NewSet, the cache that Healthy returns holds the healthy main
-- hosts, or, if there are none, the healthy backup hosts: the host under each address of the map, once,
-- in the order of the addresses.
pub Reach-IsCached : {heap : Heap} {ps : List ℕ} {s : State} → Reach heap ps s → IsCached s.set
unfolding new_set keys
Reach-IsCached {heap} {ps} start = add-IsCached heap _ ps ([], Perm.refl [], tt, refl)
Reach-IsCached (call {s} c r) = after-IsCached s c (Reach-IsCached r)
