-- ===== src/Controller/Calls.antt =====
-- What the controller's calls change, and what they leave.
use samaritan.Prelude.{
  ◌≡◌, refl, ap, subst, ◌∙◌, inl, inr, Bool, true, false, not, ◌&&◌, ◌||◌, Bool-cases, Option, none,
  some, Option-cases, List, [], ◌∷◌, ◌++◌, Bytes, bytes_equal, bytes_equal_refl, bytes_equal→eq,
  arith,
}
use samaritan.Prelude.Assoc.{lookup, insert, lookup-insert}
use samaritan.Config.Defs.{Endpoint, Wrapper, Wrappers, Event, endpoint_event, config_events}
use samaritan.Controller.Defs.{
  SvcHost, endpoints_to_hosts, ProcOps, took, Controller, is_empty, handle_svc_add, on_proc,
  handle_svc_endpoints_add, handle_svc_endpoints_remove, handle_svc_config_update, handle_event,
  handle_events,
}
use samaritan.Controller.Hosts.{
  has, any_host-endpoints_to_hosts, OfKind, Sound, endpoints_to_hosts-HostsOfKind,
}
use samaritan.Controller.Sync.{ProcLaws, FollowsParts, Follows, InSync}

module _ {C P : Type 0} {kind : Bytes → Bool} {good : C → Bool} (ops : ProcOps C P)
    (laws : ProcLaws kind good ops)
    (all_start : (name : Bytes) (c : C) (hs : List SvcHost)
      → good c ≡ true
      → (p : P) × (ops.new_proc name c hs ≡ some p)) where
  -- Only the processor under a name has changed.
  abbrev pub Only : Bytes → Controller P → Controller P → Type 0
  Only name ctl ctl' =
      (j : Bytes) → bytes_equal name j ≡ false → lookup j ctl'.procs ≡ lookup j ctl.procs

  -- The service and the processor of one name have changed.
  pub changed :
      (name : Bytes) (sws sws' : Wrappers C) (ctl ctl' : Controller P)
      → InSync ops laws all_start sws ctl
      → ((j : Bytes) → bytes_equal name j ≡ false → lookup j sws' ≡ lookup j sws)
      → Only name ctl ctl'
      → Follows ops laws all_start (lookup name sws') (lookup name ctl'.procs)
      → InSync ops laws all_start sws' ctl'
  changed name sws sws' ctl ctl' v other only here j = elim (Bool-cases (bytes_equal name j)) [
    | inl e ↦
        subst (λ (x : Bytes). Follows ops laws all_start (lookup x sws') (lookup x ctl'.procs))
          (bytes_equal→eq name j e) here
    | inr e ↦ rw (other j e, only j e) (v j)
  ]

  pub inserted :
      (name : Bytes) (w : Wrapper C) (sws : Wrappers C) → lookup name (insert name w sws) ≡ some w
  inserted name w sws = lookup-insert name name w sws ∙ ground (arith, bytes_equal_refl name)

  pub inserted_other :
      (name : Bytes) (w : Wrapper C) (sws : Wrappers C) (j : Bytes)
      → bytes_equal name j ≡ false
      → lookup j (insert name w sws) ≡ lookup j sws
  inserted_other name w sws j e = lookup-insert name j w sws ∙ ground (arith, e)

  pub handle_events-append :
      (es fs : List (Event C)) (ctl : Controller P)
      → handle_events ops (es ++ fs) ctl ≡ handle_events ops fs (handle_events ops es ctl)
  unfolding handle_events
  handle_events-append [] fs ctl = refl
  handle_events-append (e ∷ es) fs ctl = handle_events-append es fs (handle_event ops e ctl)

  on_proc-Only :
      (name : Bytes) (f : P → P) (ctl : Controller P) → Only name ctl (on_proc ops name f ctl)
  on_proc-Only name f ctl j e = elim (Option-cases (lookup name ctl.procs)) [
    | inl n ↦ rw (n, on_proc) refl
    | inr (p, k) ↦ rw (k, on_proc) (lookup-insert name j (f p) ctl.procs ∙ ground (arith, e))
  ]

  on_proc_known :
      (name : Bytes) (f : P → P) (ctl : Controller P) (p : P)
      → lookup name ctl.procs ≡ some p
      → lookup name (on_proc ops name f ctl).procs ≡ some (f p)
  on_proc_known name f ctl p k =
      rw (k, on_proc)
        (lookup-insert name name (f p) ctl.procs ∙ ground (arith, bytes_equal_refl name))

  pub started :
      (name : Bytes) (c : C) (es : List Endpoint) (ctl : Controller P)
      → lookup name ctl.procs ≡ none
      → is_empty name ≡ false
      → good c ≡ true
      → Sound kind es
      → let ctl' = handle_svc_add ops name (some c) es ctl in
        Only name ctl ctl'
        × FollowsParts ops laws all_start (some c) (some es) (lookup name ctl'.procs)
  unfolding handle_svc_add
  started name c es ctl absent named valid d =
      let (p, made) = all_start name c (endpoints_to_hosts es) valid in
      let is_valid = laws.good_valid c valid in
      rw (absent, handle_svc_add, named, is_valid, made)
        (
          λ j e. lookup-insert name j p ctl.procs ∙ ground (arith, e),
          (
            d,
            p,
            lookup-insert name name p ctl.procs ∙ ground (arith, bytes_equal_refl name),
            laws.new_Typed name c (endpoints_to_hosts es) p made
                (endpoints_to_hosts-HostsOfKind kind es d.1),
            laws.new_config name c (endpoints_to_hosts es) p made,
            valid,
            λ a.
                laws.new_registered name c (endpoints_to_hosts es) p a made
                ∙ any_host-endpoints_to_hosts es a,
          ),
        )

  abbrev pub Parts : Option C → Option (List Endpoint) → Option P → Type 0
  Parts cfg eps o = FollowsParts ops laws all_start cfg eps o

  config_taken :
      (name : Bytes) (c : C) (ctl : Controller P) (p p' : P)
      → lookup name ctl.procs ≡ some p
      → ops.on_svc_config_update c p ≡ took p'
      → handle_svc_config_update ops name c ctl ≡ record ctl { procs = insert name p' ctl.procs }
  unfolding handle_svc_config_update
  config_taken name c ctl p p' k taken = rw (k, handle_svc_config_update, taken) refl

  -- What an update of the configuration does for its service.
  pub configured :
      (name : Bytes) (c : C) (old : Option C) (eps : Option (List Endpoint)) (ctl : Controller P)
      → is_empty name ≡ false
      → good c ≡ true
      → Parts old eps (lookup name ctl.procs)
      → let ctl' = handle_events ops (config_events name c old eps) ctl in
        Only name ctl ctl' × Parts (some c) eps (lookup name ctl'.procs)
  unfolding handle_events handle_event
  configured name c none none ctl named valid v = (λ j e. refl, (valid, v))
  configured name c (some b) none ctl named valid v = (λ j e. refl, (valid, v.1))
  configured name c none (some es) ctl named valid v = started name c es ctl v.1 named valid v.0
  configured name c (some b) (some es) ctl named valid (d, p, k, t, e, g, r) =
      let (p', taken, t', e', r') = laws.update_taken c p valid (ap good e ∙ g) t in
      rw (config_taken name c ctl p p' k taken) (
        λ j f. lookup-insert name j p' ctl.procs ∙ ground (arith, f),
        (
          d,
          p',
          lookup-insert name name p' ctl.procs ∙ ground (arith, bytes_equal_refl name),
          t',
          e',
          valid,
          λ a. r' a ∙ r a,
        ),
      )

  pub endpoint_event_lem :
      (name : Bytes) (added removed : List Endpoint) (ctl : Controller P)
      → handle_events ops (endpoint_event name added removed) ctl
        ≡ handle_svc_endpoints_remove ops name removed (handle_svc_endpoints_add ops name added ctl)
  unfolding handle_events handle_event handle_svc_endpoints_remove handle_svc_endpoints_add
  endpoint_event_lem name [] [] ctl = refl
  endpoint_event_lem name [] (r ∷ rs) ctl = refl
  endpoint_event_lem name (e ∷ es) [] ctl = refl
  endpoint_event_lem name (e ∷ es) (r ∷ rs) ctl = refl

  pub hosts_added :
      (name : Bytes) (es : List Endpoint) (ctl : Controller P) (p : P)
      → lookup name ctl.procs ≡ some p
      → OfKind kind es
      → laws.Typed p
      → let ctl' = handle_svc_endpoints_add ops name es ctl in
        Only name ctl ctl'
        × (p' : P) × (lookup name ctl'.procs ≡ some p')
        × laws.Typed p'
        × (laws.config_of p' ≡ laws.config_of p)
        × ((a : Bytes) → laws.registered p' a ≡ (has es a || laws.registered p a))
  unfolding handle_svc_endpoints_add
  hosts_added name [] ctl p k q t = (λ j e. refl, p, k, t, refl, λ a. refl)
  hosts_added name (e ∷ es) ctl p k q t =
      let hs = endpoints_to_hosts (e ∷ es) in
      let g = endpoints_to_hosts-HostsOfKind kind (e ∷ es) q in
      (
        on_proc-Only name (ops.on_svc_host_add hs) ctl,
        ops.on_svc_host_add hs p,
        on_proc_known name (ops.on_svc_host_add hs) ctl p k,
        laws.add_Typed hs p g t,
        laws.add_config hs p,
        λ a.
            laws.add_registered hs p a g t
            ∙ ap (λ (b : Bool). b || laws.registered p a) (any_host-endpoints_to_hosts (e ∷ es) a),
      )

  pub hosts_removed :
      (name : Bytes) (es : List Endpoint) (ctl : Controller P) (p : P)
      → lookup name ctl.procs ≡ some p
      → OfKind kind es
      → laws.Typed p
      → let ctl' = handle_svc_endpoints_remove ops name es ctl in
        Only name ctl ctl'
        × (p' : P) × (lookup name ctl'.procs ≡ some p')
        × laws.Typed p'
        × (laws.config_of p' ≡ laws.config_of p)
        × ((a : Bytes) → laws.registered p' a ≡ (laws.registered p a && not (has es a)))
  unfolding handle_svc_endpoints_remove
  hosts_removed name [] ctl p k q t = (λ j e. refl, p, k, t, refl, λ a. ground arith)
  hosts_removed name (e ∷ es) ctl p k q t =
      let hs = endpoints_to_hosts (e ∷ es) in
      let g = endpoints_to_hosts-HostsOfKind kind (e ∷ es) q in
      (
        on_proc-Only name (ops.on_svc_host_remove hs) ctl,
        ops.on_svc_host_remove hs p,
        on_proc_known name (ops.on_svc_host_remove hs) ctl p k,
        laws.remove_Typed hs p g t,
        laws.remove_config hs p,
        λ a.
            laws.remove_registered hs p a g t
            ∙ ap (λ (b : Bool). laws.registered p a && not b)
                (any_host-endpoints_to_hosts (e ∷ es) a),
      )
