-- ===== src/Monitor/Defs.antt =====
-- The monitor's reaction to the outcome of a check.
use samaritan.Prelude.{ℕ, Bool, true, false, List, [], ◌∷◌, ltb, if◌then◌else◌}
use samaritan.Host.Defs.{
  State, update, inc_failed_count, inc_successful_count, mark_host_healthy, mark_host_unhealthy,
}

-- The thresholds of hc.HealthCheck, which are uint32.
pub record HealthCheck : Type 0 where
  pub rise_threshold : ℕ
  pub fall_threshold : ℕ

-- The state after the host's counter has moved, and the new count.
unfoldable pub count_success : State → ℕ → State × ℕ
count_success s p =
    let (t, n) = inc_successful_count (s.heap p).stats in
    (record s { heap = update s.heap p (record (s.heap p) { stats = t }) }, n)

unfoldable pub count_failure : State → ℕ → State × ℕ
count_failure s p =
    let (t, n) = inc_failed_count (s.heap p).stats in
    (record s { heap = update s.heap p (record (s.heap p) { stats = t }) }, n)

unfoldable pub check_host_and_update_status : HealthCheck → State → ℕ → Bool → State
check_host_and_update_status cfg s p true =
    let (s', n) = count_success s p in
    if ltb cfg.rise_threshold n then (mark_host_healthy s' p).0 else s'
check_host_and_update_status cfg s p false =
    let (s', n) = count_failure s p in
    if ltb cfg.fall_threshold n then (mark_host_unhealthy s' p).0 else s'

-- checkHosts: every host with its outcome, in the order that the workers take them.
unfoldable pub check_hosts : HealthCheck → State → List (ℕ × Bool) → State
check_hosts cfg s [] = s
check_hosts cfg s ((p, ok) ∷ rest) = check_hosts cfg (check_host_and_update_status cfg s p ok) rest
