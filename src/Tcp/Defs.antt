-- ===== src/Tcp/Defs.antt =====
-- tcpProc of proc/tcp/proc.go: its configuration, its set of hosts and whether it has a monitor. A
-- configuration is of any type, and so is its health check. The balancer and the listener are left out.
use samaritan.Prelude.{
  ℕ, ◌+◌, Bool, true, false, ◌&&◌, Option, none, some, List, [], ◌∷◌, length, if◌then◌else◌,
}
use samaritan.Host.Defs.{
  HostType, main, backup, new_with_type, Heap, update, new_set, State, add, remove,
}
use samaritan.Controller.Defs.{SvcHost, Updated, took, failed, panics, ProcOps}

-- The hosts from `next` on are not made yet.
pub record TcpProc (C : Type 0) : Type 0 where
  pub cfg : C
  pub hosts : State
  pub next : ℕ
  pub monitored : Bool

abbrev pub type_of : SvcHost → HostType
type_of h = if h.backup then backup else main

-- The hosts of the controller, at the pointers from k on.
unfoldable pub laid : List SvcHost → ℕ → Heap → Heap
laid [] k h = h
laid (x ∷ xs) k h = update (laid xs (k + 1) h) k (new_with_type x.addr (type_of x))

unfoldable pub pointers : List SvcHost → ℕ → List ℕ
pointers [] k = []
pointers (x ∷ xs) k = k ∷ pointers xs (k + 1)

abbrev empty_heap : Heap
empty_heap p = new_with_type [] main

-- Of a configuration: whether it is valid, whether a listener opens for it, and its health check,
-- which is nil if there is none; whether two health checks are equal; and whether newChecker makes a
-- checker of one.
pub record Checks (C : Type 0) : Type 1 where
  pub Check : Type 0
  pub valid : C → Bool
  pub listens : C → Bool
  pub health_check : C → Option Check
  pub same : Option Check → Option Check → Bool
  pub accepts : Check → Bool

abbrev pub is_there : {A : Type 0} → Option A → Bool
is_there none = false
is_there (some a) = true

module _ {C : Type 0} (checks : Checks C) where
  -- NewMonitor makes no monitor, and no error, of a nil health check.
  abbrev pub monitors : Option checks.Check → Bool
  monitors none = true
  monitors (some h) = checks.accepts h

  abbrev pub made_tcp_proc : C → List SvcHost → TcpProc C
  made_tcp_proc c hs =
      let heap = laid hs 0 empty_heap in
      record {
        cfg = c;
        hosts = record { heap = heap; set = new_set heap (pointers hs 0) };
        next = length hs;
        monitored = is_there (checks.health_check c);
      }

  unfoldable pub new_tcp_proc : C → List SvcHost → Option (TcpProc C)
  new_tcp_proc c hs =
      if checks.listens c && monitors (checks.health_check c)
      then some (made_tcp_proc c hs)
      else none

  unfoldable pub on_svc_host_add : List SvcHost → TcpProc C → TcpProc C
  on_svc_host_add hs p =
      let heap = laid hs p.next p.hosts.heap in
      record p {
        hosts = record { heap = heap; set = add heap p.hosts.set (pointers hs p.next) };
        next = p.next + length hs;
      }

  unfoldable pub on_svc_host_remove : List SvcHost → TcpProc C → TcpProc C
  on_svc_host_remove hs p =
      let heap = laid hs p.next p.hosts.heap in
      record p {
        hosts = remove (record { heap = heap; set = p.hosts.set }) (pointers hs p.next);
        next = p.next + length hs;
      }

  -- ResetHealthCheck of a monitor reads the checker of a nil health check, which panics.
  abbrev pub reset_monitor : C → TcpProc C → Option checks.Check → Updated (TcpProc C)
  reset_monitor c p none = panics
  reset_monitor c p (some h) = if checks.accepts h then took (record p { cfg = c }) else failed p

  abbrev pub start_monitor : C → TcpProc C → Option checks.Check → Updated (TcpProc C)
  start_monitor c p none = took (record p { cfg = c })
  start_monitor c p (some h) =
      if checks.accepts h then took (record p { cfg = c; monitored = true }) else failed p

  unfoldable pub on_svc_config_update : C → TcpProc C → Updated (TcpProc C)
  on_svc_config_update c p =
      if checks.same (checks.health_check p.cfg) (checks.health_check c)
      then took (record p { cfg = c })
      else if p.monitored
      then reset_monitor c p (checks.health_check c)
      else start_monitor c p (checks.health_check c)

  abbrev pub tcp_ops : ProcOps C (TcpProc C)
  tcp_ops = record {
    valid = checks.valid;
    new_proc = λ name c hs. new_tcp_proc c hs;
    on_svc_host_add = on_svc_host_add;
    on_svc_host_remove = on_svc_host_remove;
    on_svc_config_update = on_svc_config_update;
  }
