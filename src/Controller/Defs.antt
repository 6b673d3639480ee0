-- ===== src/Controller/Defs.antt =====
-- Controller of controller/controller.go. A processor is of any type, with the operations that the
-- controller calls.
use samaritan.Prelude.{
  Bool, true, false, Option, none, some, List, [], ◌∷◌, ◌++◌, Bytes, bytes, if◌then◌else◌,
}
use samaritan.Prelude.Assoc.{lookup, insert, delete}
use samaritan.Strconv.{format_uint}
use samaritan.Config.Defs.{Address, Endpoint, Event, svc_add, svc_remove, svc_config, svc_endpoint}

-- host.Host, as NewWithType makes it.
pub record SvcHost : Type 0 where
  pub addr : Bytes
  pub backup : Bool

abbrev pub host_addr : Address → Bytes
host_addr a = a.ip ++ (bytes ":" ++ format_uint a.port)

unfoldable pub endpoints_to_hosts : List Endpoint → List SvcHost
endpoints_to_hosts [] = []
endpoints_to_hosts (e ∷ es) =
    record { addr = host_addr e.address; backup = e.backup } ∷ endpoints_to_hosts es

-- What OnSvcConfigUpdate does: it takes the configuration, returns an error, or panics.
pub data Updated (P : Type 0) : Type 0 where
  took failed : P → Updated P
  panics : Updated P

-- proc.Proc: `new_proc` makes and starts a processor, and has none to return if either fails. `valid`
-- is Validate of a configuration.
pub record ProcOps (C P : Type 0) : Type 0 where
  pub valid : C → Bool
  pub new_proc : Bytes → C → List SvcHost → Option P
  pub on_svc_host_add : List SvcHost → P → P
  pub on_svc_host_remove : List SvcHost → P → P
  pub on_svc_config_update : C → P → Updated P

-- The processors, those that were stopped, and whether a panic has ended the program.
pub record Controller (P : Type 0) : Type 0 where
  pub procs : List (Bytes × P)
  pub stopped : List P
  pub panicked : Bool

unfoldable pub new_controller : {P : Type 0} → Controller P
new_controller = record { procs = []; stopped = []; panicked = false }

abbrev pub is_empty : Bytes → Bool
is_empty [] = true
is_empty (c ∷ cs) = false

module _ {C P : Type 0} (ops : ProcOps C P) where
  abbrev pub add_proc : Bytes → Option P → Controller P → Controller P
  add_proc name none ctl = ctl
  add_proc name (some p) ctl = record ctl { procs = insert name p ctl.procs }

  -- A nil configuration is not valid.
  abbrev pub try_ensure_proc : Bytes → Option C → List SvcHost → Controller P → Controller P
  try_ensure_proc name none hosts ctl = ctl
  try_ensure_proc name (some c) hosts ctl =
      if is_empty name
      then ctl
      else if ops.valid c
      then add_proc name (ops.new_proc name c hosts) ctl
      else ctl

  unfoldable pub handle_svc_add : Bytes → Option C → List Endpoint → Controller P → Controller P
  unfolding endpoints_to_hosts
  handle_svc_add name cfg endpoints ctl = elim (lookup name ctl.procs) [
    | some p ↦ ctl
    | none ↦ try_ensure_proc name cfg (endpoints_to_hosts endpoints) ctl
  ]

  unfoldable pub handle_svc_del : Bytes → Controller P → Controller P
  handle_svc_del name ctl = elim (lookup name ctl.procs) [
    | none ↦ ctl
    | some p ↦ record ctl { procs = delete name ctl.procs; stopped = p ∷ ctl.stopped }
  ]

  -- A processor changes in place.
  abbrev pub on_proc : Bytes → (P → P) → Controller P → Controller P
  on_proc name f ctl = elim (lookup name ctl.procs) [
    | none ↦ ctl
    | some p ↦ record ctl { procs = insert name (f p) ctl.procs }
  ]

  unfoldable pub handle_svc_endpoints_add : Bytes → List Endpoint → Controller P → Controller P
  handle_svc_endpoints_add name [] ctl = ctl
  handle_svc_endpoints_add name (e ∷ es) ctl =
      on_proc name (ops.on_svc_host_add (endpoints_to_hosts (e ∷ es))) ctl

  unfoldable pub handle_svc_endpoints_remove : Bytes → List Endpoint → Controller P → Controller P
  handle_svc_endpoints_remove name [] ctl = ctl
  handle_svc_endpoints_remove name (e ∷ es) ctl =
      on_proc name (ops.on_svc_host_remove (endpoints_to_hosts (e ∷ es))) ctl

  -- An error leaves the processor as it was, or as far as the update came.
  abbrev pub after_update : Bytes → Controller P → Updated P → Controller P
  after_update name ctl (took p) = record ctl { procs = insert name p ctl.procs }
  after_update name ctl (failed p) = record ctl { procs = insert name p ctl.procs }
  after_update name ctl panics = record ctl { panicked = true }

  unfoldable pub handle_svc_config_update : Bytes → C → Controller P → Controller P
  handle_svc_config_update name c ctl = elim (lookup name ctl.procs) [
    | none ↦ ctl
    | some p ↦ after_update name ctl (ops.on_svc_config_update c p)
  ]

  unfoldable pub handle_event : Event C → Controller P → Controller P
  handle_event (svc_add name cfg endpoints) ctl = handle_svc_add name cfg endpoints ctl
  handle_event (svc_remove name) ctl = handle_svc_del name ctl
  handle_event (svc_config name c) ctl = handle_svc_config_update name c ctl
  handle_event (svc_endpoint name added removed) ctl =
      handle_svc_endpoints_remove name removed (handle_svc_endpoints_add name added ctl)

  unfoldable pub handle_events : List (Event C) → Controller P → Controller P
  handle_events [] ctl = ctl
  handle_events (e ∷ es) ctl = handle_events es (handle_event e ctl)
