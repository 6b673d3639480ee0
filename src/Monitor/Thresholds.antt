-- ===== src/Monitor/Thresholds.antt =====
-- How many checks in a row change a host's health.
use samaritan.Prelude.{
  ℕ, zero, suc, ◌+◌, ◌^◌, ◌≤◌, ◌<◌, ◌≡◌, refl, subst, ap, ◌∙◌, Bool, true, false, none, List,
  replicate, ltb, arith,
}
use samaritan.Prelude.Assoc.{lookup}
use samaritan.Host.Defs.{Host, HostSet, State, exist, inc_failed_count, mark_host_unhealthy}
use samaritan.Host.Marks.{healthy_of, mark_unhealthy-effect}
use samaritan.Monitor.Defs.{HealthCheck, count_failure, check_host_and_update_status, check_hosts}

-- The same outcome of one host in k rounds.
abbrev pub rounds : ℕ → ℕ → Bool → List (ℕ × Bool)
rounds k p ok = replicate k (p, ok)

-- The host after k failures, where c were counted before.
abbrev pub failed : ℕ → Host → Host
failed c h = record h { stats = record (h.stats) { successful_count = 0; failed_count = c } }

-- A failure that does not reach past the threshold counts, and does nothing else.
failure_counts :
    (cfg : HealthCheck) (s : State) (p : ℕ)
    → (s.heap p).stats.failed_count < cfg.fall_threshold
    → cfg.fall_threshold < 2 ^ 32
    → let s' = check_host_and_update_status cfg s p false in
      (s'.heap p ≡ failed ((s.heap p).stats.failed_count + 1) (s.heap p)) × (s'.set ≡ s.set)
unfolding check_host_and_update_status count_failure inc_failed_count
failure_counts cfg s p lt small = (ground arith, ground arith)

-- What k failures below the threshold keep, and the count that they reach.
record Counted (s s' : State) (p n : ℕ) : Type 0 where
  same_set : s'.set ≡ s.set
  same_addr : (s'.heap p).addr ≡ (s.heap p).addr
  same_type : (s'.heap p).typ ≡ (s.heap p).typ
  same_health : (s'.heap p).stats.is_healthy ≡ (s.heap p).stats.is_healthy
  count : (s'.heap p).stats.failed_count ≡ n

failures_count :
    (cfg : HealthCheck) (k : ℕ) (s : State) (p n : ℕ)
    → (s.heap p).stats.failed_count + k ≡ n
    → n ≤ cfg.fall_threshold
    → cfg.fall_threshold < 2 ^ 32
    → Counted s (check_hosts cfg s (rounds k p false)) p n
unfolding check_hosts
failures_count cfg zero s p n e le small = record {
  same_set = refl;
  same_addr = refl;
  same_type = refl;
  same_health = refl;
  count = omega arith;
}
failures_count cfg (suc k) s p n e le small =
    let s' = check_host_and_update_status cfg s p false in
    let (at_p, set) = failure_counts cfg s p (omega arith) small in
    let now : (s'.heap p).stats.failed_count ≡ (s.heap p).stats.failed_count + 1 =
      ap (λ (h : Host). h.stats.failed_count) at_p in
    let ih = failures_count cfg k s' p n (omega (arith, now)) le small in
    record {
      same_set = ih.same_set ∙ set;
      same_addr = ih.same_addr ∙ ap (λ (h : Host). h.addr) at_p;
      same_type = ih.same_type ∙ ap (λ (h : Host). h.typ) at_p;
      same_health = ih.same_health ∙ ap (λ (h : Host). h.stats.is_healthy) at_p;
      count = ih.count;
    }

count_failure_past :
    (cfg : HealthCheck) (s : State) (p : ℕ)
    → (s.heap p).stats.failed_count ≡ cfg.fall_threshold
    → cfg.fall_threshold < 2 ^ 32
    → (ltb cfg.fall_threshold (count_failure s p).1 ≡ true)
      × ((count_failure s p).0.heap p ≡ failed (cfg.fall_threshold + 1) (s.heap p))
      × ((count_failure s p).0.set ≡ s.set)
unfolding count_failure inc_failed_count
count_failure_past cfg s p e small = (ground arith, ground arith, refl)

-- The failure that reaches past the threshold.
last_failure :
    (cfg : HealthCheck) (s : State) (p : ℕ)
    → (s.heap p).stats.failed_count ≡ cfg.fall_threshold
    → cfg.fall_threshold < 2 ^ 32
    → (s.heap p).stats.is_healthy ≡ true
    → exist s.set (s.heap p).addr ≡ true
    → let s' = check_host_and_update_status cfg s p false in
      ((s'.heap p).stats.is_healthy ≡ false)
      × (lookup (s.heap p).addr (healthy_of (s.heap p).typ s'.set) ≡ none)
unfolding check_host_and_update_status
last_failure cfg s p e small healthy known =
    let t = (count_failure s p).0 in
    let (past, at_p, set) = count_failure_past cfg s p e small in
    let still : (t.heap p).stats.is_healthy ≡ true =
      ap (λ (h : Host). h.stats.is_healthy) at_p ∙ healthy in
    let known' : exist t.set (t.heap p).addr ≡ true =
      ap (λ (x : HostSet). exist x (t.heap p).addr) set
      ∙ ap (λ (h : Host). exist s.set h.addr) at_p
      ∙ known in
    let (changed, at_p', gone, again) = mark_unhealthy-effect t p still known' in
    rw past (
      ap (λ (h : Host). h.stats.is_healthy) at_p',
      subst (λ (h : Host). lookup h.addr (healthy_of h.typ (mark_host_unhealthy t p).0.set) ≡ none)
          at_p gone,
    )

check_hosts-suc :
    (cfg : HealthCheck) (k : ℕ) (s : State) (p : ℕ) (ok : Bool)
    → check_hosts cfg s (rounds (suc k) p ok)
      ≡ check_host_and_update_status cfg (check_hosts cfg s (rounds k p ok)) p ok
unfolding check_hosts
check_hosts-suc cfg zero s p ok = refl
check_hosts-suc cfg (suc k) s p ok =
    check_hosts-suc cfg k (check_host_and_update_status cfg s p ok) p ok

-- A healthy host that the set knows, with no failed check counted. As many failed checks in a row as
-- the fall threshold, or fewer, leave the host healthy and the set alone; one more than the
-- threshold mark it unhealthy and take it out of the healthy hosts of its type.
pub failures-fall :
    (cfg : HealthCheck) (s : State) (p k : ℕ)
    → (s.heap p).stats.failed_count ≡ 0
    → cfg.fall_threshold < 2 ^ 32
    → (s.heap p).stats.is_healthy ≡ true
    → exist s.set (s.heap p).addr ≡ true
    → k ≤ cfg.fall_threshold
    → let few = check_hosts cfg s (rounds k p false) in
      let many = check_hosts cfg s (rounds (suc cfg.fall_threshold) p false) in
      ((few.heap p).stats.is_healthy ≡ true)
      × (few.set ≡ s.set)
      × ((many.heap p).stats.is_healthy ≡ false)
      × (lookup (s.heap p).addr (healthy_of (s.heap p).typ many.set) ≡ none)
failures-fall cfg s p k no_failure small healthy known le =
    let c = failures_count cfg k s p k (omega arith) le small in
    let n = cfg.fall_threshold in
    let t = check_hosts cfg s (rounds n p false) in
    let d = failures_count cfg n s p n (omega arith) (omega arith) small in
    let known' : exist t.set (t.heap p).addr ≡ true =
      ap (λ (x : HostSet). exist x (t.heap p).addr) d.same_set
      ∙ ap (exist s.set) d.same_addr
      ∙ known in
    let (fallen, gone) = last_failure cfg t p d.count small (d.same_health ∙ healthy) known' in
    let u = check_host_and_update_status cfg t p false in
    let gone' : lookup (s.heap p).addr (healthy_of (s.heap p).typ u.set) ≡ none =
      subst (λ (a : _). lookup a (healthy_of (s.heap p).typ u.set) ≡ none) d.same_addr
        (subst (λ (y : _). lookup (t.heap p).addr (healthy_of y u.set) ≡ none) d.same_type gone) in
    (
      c.same_health ∙ healthy,
      c.same_set,
      rw (check_hosts-suc cfg n s p false) fallen,
      rw (check_hosts-suc cfg n s p false) gone',
    )
