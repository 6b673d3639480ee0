-- ===== src/Host/Defs.antt =====
-- The hosts and the set of host/host.go.
use samaritan.Prelude.{
  ℕ, ◌+◌, ◌%◌, ◌^◌, Bool, true, false, Option, none, some, List, [], ◌∷◌, Bytes, length,
  bytes_equal, ◌==◌, ltb, if◌then◌else◌,
}
use samaritan.Prelude.Assoc.{lookup, insert, delete, keys}

-- `other` is a number that names no type.
pub data HostType : Type 0 where
  main backup : HostType
  other : ℕ → HostType

-- The counters are uint64.
pub record HostStats : Type 0 where
  pub is_healthy : Bool
  pub conn_total : ℕ
  pub conn_active : ℕ
  pub conn_destroy : ℕ
  pub failed_count : ℕ
  pub successful_count : ℕ

-- `removed` tells whether removeCh is closed.
pub record Host : Type 0 where
  pub addr : Bytes
  pub typ : HostType
  pub stats : HostStats
  pub removed : Bool

abbrev pub u64 : ℕ → ℕ
u64 n = n % 2 ^ 64

unfoldable pub new_stats : HostStats
new_stats = record {
  is_healthy = true;
  conn_total = 0;
  conn_active = 0;
  conn_destroy = 0;
  failed_count = 0;
  successful_count = 0;
}

unfoldable pub new_with_type : Bytes → HostType → Host
unfolding new_stats
new_with_type addr typ = record { addr = addr; typ = typ; stats = new_stats; removed = false }

-- host.IsEqual, where either pointer may be nil.
abbrev pub same_type : HostType → HostType → Bool
same_type main main = true
same_type backup backup = true
same_type (other a) (other b) = a == b
same_type _ _ = false

unfoldable pub is_equal : Option Host → Option Host → Bool
is_equal (some a) (some b) = if bytes_equal a.addr b.addr then same_type a.typ b.typ else false
is_equal _ _ = false

unfoldable pub inc_conn_count : HostStats → HostStats
inc_conn_count s = record s {
  conn_total = u64 (s.conn_total + 1);
  conn_active = u64 (s.conn_active + 1);
}

-- conn_active.Dec wraps below zero.
unfoldable pub dec_conn_count : HostStats → HostStats
dec_conn_count s = record s {
  conn_destroy = u64 (s.conn_destroy + 1);
  conn_active = u64 (s.conn_active + 0xffff_ffff_ffff_ffff);
}

-- The new count is the result.
unfoldable pub inc_failed_count : HostStats → HostStats × ℕ
inc_failed_count s =
    let n = u64 (s.failed_count + 1) in (record s { successful_count = 0; failed_count = n }, n)

unfoldable pub inc_successful_count : HostStats → HostStats × ℕ
inc_successful_count s =
    let n = u64 (s.successful_count + 1) in (record s { failed_count = 0; successful_count = n }, n)

-- Whether the health changed: a compare-and-swap.
unfoldable pub set_healthy : HostStats → HostStats × Bool
set_healthy s =
    let t = record s { successful_count = 0; failed_count = 0 } in
    if s.is_healthy then (t, false) else (record t { is_healthy = true }, true)

unfoldable pub set_unhealthy : HostStats → HostStats × Bool
set_unhealthy s =
    let t = record s { successful_count = 0; failed_count = 0 } in
    if s.is_healthy then (record t { is_healthy = false }, true) else (t, false)

-- A host by its pointer.
abbrev pub Heap : Type 0
Heap = ℕ → Host

abbrev pub update : Heap → ℕ → Host → Heap
update h p v q = if p == q then v else h q

abbrev pub HostMap : Type 0
HostMap = List (Bytes × ℕ)

pub record HostSet : Type 0 where
  pub all : HostMap
  pub healthy_main : HostMap
  pub healthy_backup : HostMap
  pub healthy_cache : List ℕ

-- sort.Strings: bytewise order.
unfoldable pub bytes_leb : Bytes → Bytes → Bool
bytes_leb [] ys = true
bytes_leb (x ∷ xs) [] = false
bytes_leb (x ∷ xs) (y ∷ ys) =
    let rest = bytes_leb xs ys in if ltb x y then true else if ltb y x then false else rest

unfoldable pub insert_sorted : Bytes → List Bytes → List Bytes
insert_sorted x [] = x ∷ []
insert_sorted x (y ∷ ys) =
    let rest = y ∷ insert_sorted x ys in if bytes_leb x y then x ∷ y ∷ ys else rest

unfoldable pub sort_strings : List Bytes → List Bytes
sort_strings [] = []
sort_strings (x ∷ xs) = insert_sorted x (sort_strings xs)

abbrev pub found : Option ℕ → List ℕ → List ℕ
found none l = l
found (some p) l = p ∷ l

-- The hosts of a map by the given keys.
unfoldable pub hosts_by : HostMap → List Bytes → List ℕ
hosts_by m [] = []
hosts_by m (k ∷ ks) = found (lookup k m) (hosts_by m ks)

-- healthy: the backup hosts serve only while no main host is healthy.
unfoldable pub healthy : HostSet → HostMap
healthy s = if length s.healthy_main == 0 then s.healthy_backup else s.healthy_main

unfoldable pub build_healthy_cache : HostSet → HostSet
build_healthy_cache s = record s {
  healthy_cache = hosts_by (healthy s) (sort_strings (keys (healthy s)));
}

-- One round of the loops of addToHealthy and removeFromHealthy.
unfoldable pub add_healthy_one : Heap → HostSet → ℕ → HostSet
add_healthy_one h s p = elim ((h p).typ) [
  | main ↦ record s { healthy_main = insert (h p).addr p s.healthy_main }
  | backup ↦ record s { healthy_backup = insert (h p).addr p s.healthy_backup }
  | other n ↦ s
]

unfoldable pub remove_healthy_one : Heap → HostSet → ℕ → HostSet
remove_healthy_one h s p = elim ((h p).typ) [
  | main ↦ record s { healthy_main = delete (h p).addr s.healthy_main }
  | backup ↦ record s { healthy_backup = delete (h p).addr s.healthy_backup }
  | other n ↦ s
]

abbrev pub each : (HostSet → ℕ → HostSet) → HostSet → List ℕ → HostSet
each f s [] = s
each f s (p ∷ ps) = each f (f s p) ps

unfoldable pub add_to_healthy : Heap → HostSet → List ℕ → HostSet
add_to_healthy h s [] = s
add_to_healthy h s (p ∷ ps) = build_healthy_cache (each (add_healthy_one h) s (p ∷ ps))

unfoldable pub remove_from_healthy : Heap → HostSet → List ℕ → HostSet
remove_from_healthy h s [] = s
remove_from_healthy h s (p ∷ ps) = build_healthy_cache (each (remove_healthy_one h) s (p ∷ ps))

abbrev pub put_one : Heap → HostSet → ℕ → HostSet
put_one h s p = record s { all = insert (h p).addr p s.all }

unfoldable pub add : Heap → HostSet → List ℕ → HostSet
add h s [] = s
add h s (p ∷ ps) = add_to_healthy h (each (put_one h) s (p ∷ ps)) (p ∷ ps)

unfoldable pub new_set : Heap → List ℕ → HostSet
unfolding add
new_set h ps =
    add h (record { all = []; healthy_main = []; healthy_backup = []; healthy_cache = [] }) ps

-- The hosts, and the set over them.
pub record State : Type 0 where
  pub heap : Heap
  pub set : HostSet

abbrev pub mark_removed : Heap → ℕ → Heap
mark_removed h p = update h p (record (h p) { removed = true })

abbrev pub mark_all_removed : Heap → List ℕ → Heap
mark_all_removed h [] = h
mark_all_removed h (p ∷ ps) = mark_all_removed (mark_removed h p) ps

abbrev pub drop_one : Heap → HostSet → ℕ → HostSet
drop_one h s p = record s { all = delete (h p).addr s.all }

unfoldable pub remove : State → List ℕ → State
remove s [] = s
remove s (p ∷ ps) = record {
  heap = mark_all_removed s.heap (p ∷ ps);
  set = remove_from_healthy s.heap (each (drop_one s.heap) s.set (p ∷ ps)) (p ∷ ps);
}

abbrev pub is_known : HostSet → Bytes → Bool
is_known s a = elim (lookup a s.all) [ none ↦ false | some p ↦ true ]

unfoldable pub exist : HostSet → Bytes → Bool
exist s a = is_known s a

unfoldable pub mark_host_healthy : State → ℕ → State × Bool
unfolding set_healthy
mark_host_healthy s p =
    let h = s.heap p in
    let (t, changed) = set_healthy h.stats in
    let heap' = update s.heap p (record h { stats = t }) in
    let s' = record s { heap = heap' } in
    if changed
    then (if is_known s.set h.addr
        then (record s' { set = add_to_healthy heap' s.set (p ∷ []) }, true)
        else (s', false))
    else (s', false)

unfoldable pub mark_host_unhealthy : State → ℕ → State × Bool
unfolding set_unhealthy
mark_host_unhealthy s p =
    let h = s.heap p in
    let (t, changed) = set_unhealthy h.stats in
    let heap' = update s.heap p (record h { stats = t }) in
    let s' = record s { heap = heap' } in
    if changed
    then (if is_known s.set h.addr
        then (record s' { set = remove_from_healthy heap' s.set (p ∷ []) }, true)
        else (s', false))
    else (s', false)

abbrev pub values : HostMap → List ℕ
values [] = []
values ((k, p) ∷ m) = p ∷ values m

-- ReplaceAll removes the hosts one by one, in the order that `order` gives the map's hosts.
abbrev pub remove_each : State → List ℕ → State
remove_each s [] = s
remove_each s (p ∷ ps) = remove_each (remove s (p ∷ [])) ps

unfoldable pub replace_all : State → List ℕ → State
unfolding remove add
replace_all s ps =
    let t = remove_each s (values s.set.all) in record t { set = add t.heap t.set ps }
