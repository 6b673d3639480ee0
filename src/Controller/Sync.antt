-- ===== src/Controller/Sync.antt =====
-- The controller's processors follow the configuration.
use samaritan.Prelude.{
  ◌≡◌, ◌≢◌, Bool, true, false, not, ◌&&◌, ◌||◌, Option, none, some, List, [], ◌∷◌, ◌++◌, Bytes,
}
use samaritan.Prelude.Assoc.{lookup}
use samaritan.Config.Defs.{
  Endpoint, Wrapper, Wrappers, Event, svc_add, svc_remove, svc_config, svc_endpoint, read_all,
  drop_all, put_all, rewrap, endpoint_event, depend_one, depend_all, forget_one, forget_all,
  handle_dependency_update, config_events, with_config, update_events, with_endpoints,
  nothing_changed, handle_svc_endpoint_update,
}
use samaritan.Config.Defs
use samaritan.Controller.Defs.{took, SvcHost, ProcOps, Controller, is_empty}
use samaritan.Controller.Hosts.{has, any_host, OfKind, Sound, HostsOfKind}

-- What the updates of a dynamic source tell.
pub data Update (C : Type 0) : Type 0 where
  depends : List Bytes → List Bytes → Update C
  configures : Bytes → C → Update C
  populates : Bytes → List Endpoint → List Endpoint → Update C

-- What a processor has of the calls that were made of it, its addresses and its configuration, when
-- every host is of the kind that its address has. A good configuration is valid and is taken in an
-- update.
pub record ProcLaws {C P : Type 0} (kind : Bytes → Bool) (good : C → Bool) (ops : ProcOps C P)
    : Type 1 where
  pub registered : P → Bytes → Bool
  pub config_of : P → C
  pub Typed : P → Type 0
  pub new_Typed :
      (name : Bytes) (c : C) (hs : List SvcHost) (p : P)
      → ops.new_proc name c hs ≡ some p
      → HostsOfKind kind hs
      → Typed p
  pub add_Typed :
      (hs : List SvcHost) (p : P) → HostsOfKind kind hs → Typed p → Typed (ops.on_svc_host_add hs p)
  pub remove_Typed :
      (hs : List SvcHost) (p : P)
      → HostsOfKind kind hs
      → Typed p
      → Typed (ops.on_svc_host_remove hs p)
  pub good_valid : (c : C) → good c ≡ true → ops.valid c ≡ true
  pub new_config :
      (name : Bytes) (c : C) (hs : List SvcHost) (p : P)
      → ops.new_proc name c hs ≡ some p
      → config_of p ≡ c
  pub new_registered :
      (name : Bytes) (c : C) (hs : List SvcHost) (p : P) (a : Bytes)
      → ops.new_proc name c hs ≡ some p
      → registered p a ≡ any_host hs a
  pub add_config : (hs : List SvcHost) (p : P) → config_of (ops.on_svc_host_add hs p) ≡ config_of p
  pub add_registered :
      (hs : List SvcHost) (p : P) (a : Bytes)
      → HostsOfKind kind hs
      → Typed p
      → registered (ops.on_svc_host_add hs p) a ≡ (any_host hs a || registered p a)
  pub remove_config :
      (hs : List SvcHost) (p : P) → config_of (ops.on_svc_host_remove hs p) ≡ config_of p
  pub remove_registered :
      (hs : List SvcHost) (p : P) (a : Bytes)
      → HostsOfKind kind hs
      → Typed p
      → registered (ops.on_svc_host_remove hs p) a ≡ (registered p a && not (any_host hs a))
  pub update_taken :
      (c : C) (p : P)
      → good c ≡ true
      → good (config_of p) ≡ true
      → Typed p
      → (p' : P) × (ops.on_svc_config_update c p ≡ took p')
        × Typed p'
        × (config_of p' ≡ c)
        × ((a : Bytes) → registered p' a ≡ registered p a)

module _ {C : Type 0} where
  unfoldable pub config_update : Update C → Wrappers C → Wrappers C × List (Event C)
  unfolding handle_dependency_update Defs.handle_svc_config_update handle_svc_endpoint_update
  config_update (depends added removed) sws = handle_dependency_update added removed sws
  config_update (configures name c) sws = Defs.handle_svc_config_update name c sws
  config_update (populates name added removed) sws =
      handle_svc_endpoint_update name added removed sws

  -- The services after some updates, and all the events.
  unfoldable pub config_run : List (Update C) → Wrappers C → Wrappers C × List (Event C)
  config_run [] sws = (sws, [])
  config_run (u ∷ us) sws =
      let (sws₁, es) = config_update u sws in
      let (sws₂, fs) = config_run us sws₁ in (sws₂, es ++ fs)

  -- A service that has no endpoints yet is given some, under a name that is not empty, and no address
  -- is both added and removed. Configurations are valid, and endpoints of their addresses' kinds.
  abbrev pub Starts : Bytes → List Endpoint → Option (Wrapper C) → Type 0
  Starts name added none = Unit
  Starts name added (some w) = w.endpoints ≡ none → added ≢ []

  abbrev pub Fair : (Bytes → Bool) → (C → Bool) → Update C → Wrappers C → Type 0
  Fair kind valid (depends added removed) sws = Unit
  Fair kind valid (configures name c) sws = (is_empty name ≡ false) × (valid c ≡ true)
  Fair kind valid (populates name added removed) sws =
      (is_empty name ≡ false)
      × Starts name added (lookup name sws)
      × ((a : Bytes) → has removed a ≡ true → has added a ≡ false)
      × OfKind kind added
      × OfKind kind removed

  abbrev pub AllFair : (Bytes → Bool) → (C → Bool) → List (Update C) → Wrappers C → Type 0
  AllFair kind valid [] sws = Unit
  AllFair kind valid (u ∷ us) sws =
      Fair kind valid u sws × AllFair kind valid us (config_update u sws).0

module _ {C P : Type 0} {kind : Bytes → Bool} {good : C → Bool} (ops : ProcOps C P)
    (laws : ProcLaws kind good ops)
    (all_start : (name : Bytes) (c : C) (hs : List SvcHost)
      → good c ≡ true
      → (p : P) × (ops.new_proc name c hs ≡ some p)) where
  -- A service with a configuration and endpoints has a processor, with that configuration and with
  -- hosts under the endpoints' addresses; any other service has none.
  abbrev pub FollowsParts : Option C → Option (List Endpoint) → Option P → Type 0
  FollowsParts (some c) (some es) o =
      Sound kind es
      × (p : P) × (o ≡ some p)
      × laws.Typed p
      × (laws.config_of p ≡ c)
      × (good c ≡ true)
      × ((a : Bytes) → laws.registered p a ≡ has es a)
  FollowsParts (some c) none o = (good c ≡ true) × (o ≡ none)
  FollowsParts none (some es) o = Sound kind es × (o ≡ none)
  FollowsParts none none o = o ≡ none

  abbrev pub Follows : Option (Wrapper C) → Option P → Type 0
  Follows none o = o ≡ none
  Follows (some w) o = FollowsParts w.config w.endpoints o

  abbrev pub InSync : Wrappers C → Controller P → Type 0
  InSync sws ctl = (name : Bytes) → Follows (lookup name sws) (lookup name ctl.procs)
