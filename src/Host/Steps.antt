-- ===== src/Host/Steps.antt =====
-- The calls that change a host set, and the states that they lead to.
use samaritan.Prelude.{ℕ, List}
use samaritan.Host.Defs.{
  Heap, State, new_set, add, remove, mark_host_healthy, mark_host_unhealthy, replace_all,
}

-- Add, Remove, MarkHostHealthy, MarkHostUnhealthy and ReplaceAll, each under the set's lock.
pub data Call : Type 0 where
  add_hosts remove_hosts replace_hosts : List ℕ → Call
  mark_healthy mark_unhealthy : ℕ → Call

unfoldable pub after : State → Call → State
after s (add_hosts ps) = record s { set = add s.heap s.set ps }
after s (remove_hosts ps) = remove s ps
after s (replace_hosts ps) = replace_all s ps
after s (mark_healthy p) = (mark_host_healthy s p).0
after s (mark_unhealthy p) = (mark_host_unhealthy s p).0

pub data Reach (heap : Heap) (ps : List ℕ) : State → Type 0 where
  start : Reach heap ps (record { heap = heap; set = new_set heap ps })
  call : {s : State} (c : Call) → Reach heap ps s → Reach heap ps (after s c)
