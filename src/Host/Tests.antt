-- ===== src/Host/Tests.antt =====
-- A small host set, and the theorems of the host set at it.
use samaritan.Prelude.{
  zero, suc, bytes_equal, ◌≡◌, refl, true, false, none, some, [], ◌∷◌, Bytes, bytes,
}
use samaritan.Prelude.Assoc.{lookup, insert, delete, keys}
use samaritan.Host.Defs.{
  main, backup, Heap, State, new_with_type, new_set, exist, remove, mark_host_healthy,
  mark_host_unhealthy, add_to_healthy, remove_from_healthy, build_healthy_cache, add_healthy_one,
  remove_healthy_one, hosts_by, healthy, sort_strings, insert_sorted, bytes_leb,
}
use samaritan.Host.Steps.{start, call, mark_unhealthy, remove_hosts, after}
use samaritan.Host.Cache.{IsCached, Reach-IsCached}
use samaritan.Host.Marks.{
  healthy_of, marked, mark_unhealthy-effect, mark_healthy-effect, remove_other_type,
}

abbrev addr_a : Bytes
addr_a = bytes "10.0.0.1:6379"

-- Hosts 0 and 1 are main hosts, 2 a backup host, 3 a backup host under the address of host 0.
abbrev hosts : Heap
hosts zero = new_with_type addr_a main
hosts (suc zero) = new_with_type (bytes "10.0.0.2:6379") main
hosts (suc (suc zero)) = new_with_type (bytes "10.0.0.3:6379") backup
hosts _ = new_with_type addr_a backup

abbrev registered : State
registered = record { heap = hosts; set = new_set hosts (2 ∷ 1 ∷ 0 ∷ []) }

cache_sorted : registered.set.healthy_cache ≡ 0 ∷ 1 ∷ []
unfolding new_set exist lookup insert bytes_equal add_to_healthy build_healthy_cache add_healthy_one
    remove_from_healthy remove_healthy_one hosts_by healthy sort_strings insert_sorted bytes_leb
    keys delete new_with_type
cache_sorted = refl

-- With both main hosts unhealthy the backup host serves.
backup_serves :
    (after (after registered (mark_unhealthy 0)) (mark_unhealthy 1)).set.healthy_cache ≡ 2 ∷ []
unfolding new_set exist lookup insert bytes_equal add_to_healthy build_healthy_cache add_healthy_one
    remove_from_healthy remove_healthy_one hosts_by healthy sort_strings insert_sorted bytes_leb
    keys delete after new_with_type mark_host_unhealthy
backup_serves = refl

Reach-IsCached_example :
    IsCached (after (after registered (mark_unhealthy 0)) (remove_hosts (1 ∷ []))).set
Reach-IsCached_example =
    Reach-IsCached (call (remove_hosts (1 ∷ [])) (call (mark_unhealthy 0) start))

mark_unhealthy-effect_example :
    let (s', changed) = mark_host_unhealthy registered 0 in
    (changed ≡ true)
    × (s'.heap 0 ≡ marked false (hosts 0))
    × (lookup addr_a (healthy_of main s'.set) ≡ none)
    × ((mark_host_unhealthy s' 0).1 ≡ false)
unfolding new_set exist lookup insert bytes_equal add_to_healthy build_healthy_cache add_healthy_one
    new_with_type
mark_unhealthy-effect_example = mark_unhealthy-effect registered 0 refl refl

abbrev one_down : State
one_down = after registered (mark_unhealthy 0)

mark_healthy-effect_example :
    let (s', changed) = mark_host_healthy one_down 0 in
    (changed ≡ true)
    × (s'.heap 0 ≡ marked true (one_down.heap 0))
    × (lookup addr_a (healthy_of main s'.set) ≡ some 0)
    × ((mark_host_healthy s' 0).1 ≡ false)
unfolding new_set exist lookup insert bytes_equal add_to_healthy build_healthy_cache add_healthy_one
    remove_from_healthy remove_healthy_one hosts_by healthy sort_strings insert_sorted bytes_leb
    keys delete new_with_type after mark_host_unhealthy
mark_healthy-effect_example = mark_healthy-effect one_down 0 refl refl

remove_other_type_example :
    let s' = remove registered (3 ∷ []) in
    (exist s'.set addr_a ≡ false) × (lookup addr_a s'.set.healthy_main ≡ some 0)
unfolding new_set exist lookup insert bytes_equal add_to_healthy build_healthy_cache add_healthy_one
    new_with_type
remove_other_type_example = remove_other_type registered 0 3 refl refl refl
