-- ===== src/Monitor/Tests.antt =====
-- A monitored host, and the theorems of the monitor at it.
use samaritan.Prelude.{◌≡◌, refl, true, false, none, [], ◌∷◌, Bytes, bytes, bytes_equal, arith}
use samaritan.Prelude.Assoc.{lookup, insert}
use samaritan.Host.Defs.{
  main, Heap, State, new_with_type, new_set, exist, add_to_healthy, build_healthy_cache,
  add_healthy_one,
}
use samaritan.Host.Marks.{healthy_of}
use samaritan.Monitor.Defs.{HealthCheck, check_hosts}
use samaritan.Monitor.Thresholds.{rounds, failures-fall}

abbrev addr : Bytes
addr = bytes "10.0.0.1:6379"

abbrev hosts : Heap
hosts _ = new_with_type addr main

abbrev registered : State
registered = record { heap = hosts; set = new_set hosts (0 ∷ []) }

abbrev thresholds : HealthCheck
thresholds = record { rise_threshold = 3; fall_threshold = 3 }

failures-fall_example :
    let few = check_hosts thresholds registered (rounds 3 0 false) in
    let many = check_hosts thresholds registered (rounds 4 0 false) in
    ((few.heap 0).stats.is_healthy ≡ true)
    × (few.set ≡ registered.set)
    × ((many.heap 0).stats.is_healthy ≡ false)
    × (lookup addr (healthy_of main many.set) ≡ none)
unfolding new_set exist lookup insert bytes_equal add_to_healthy build_healthy_cache add_healthy_one
    new_with_type
failures-fall_example =
    failures-fall thresholds registered 0 3 refl (omega arith) refl refl (omega arith)
