-- ===== src/Controller/Populate.antt =====
-- An update of the endpoints of a service, with its events handled.
use samaritan.Prelude.{
  ◌≡◌, ◌≢◌, refl, ap, ◌∙◌, inl, inr, Bool, true, false, not, ◌&&◌, ◌||◌, Bool-cases, Option, none,
  some, List, [], ◌∷◌, length, length-append, ◌<◌, Bytes, arith,
}
use samaritan.Prelude.Assoc.{lookup}
use samaritan.Config.Defs.{
  Endpoint, read_all, drop_all, put_all, rewrap, endpoint_event, update_events, put_one, contains,
}
use samaritan.Controller.Defs.{
  SvcHost, ProcOps, Controller, is_empty, handle_svc_endpoints_add, handle_event, handle_events,
}
use samaritan.Controller.Endpoints.{removed-IsLeft, added-IsGrown}
use samaritan.Controller.Hosts.{has, OfKind, Sound}
use samaritan.Controller.Sync.{ProcLaws}
use samaritan.Controller.Calls.{
  Only, started, endpoint_event_lem, hosts_added, hosts_removed, Parts,
}

put_one_some :
    (e : Endpoint) (s : List Endpoint × List Endpoint) → 0 < length s.0 → 0 < length (put_one e s).0
put_one_some e (es, valid) h = ground (arith, length-append es (e ∷ []))

put_all_some :
    (es : List Endpoint) (s : List Endpoint × List Endpoint)
    → 0 < length s.0
    → 0 < length (put_all es s).0
unfolding put_all
put_all_some [] s h = h
put_all_some (e ∷ es) s h = put_all_some es (put_one e s) (put_one_some e s h)

-- Some endpoints put into none are some.
put_some : (es : List Endpoint) → es ≢ [] → 0 < length (put_all es ([], [])).0
unfolding put_all contains
put_some [] h = absurd (h refl)
put_some (e ∷ es) h = put_all_some es (e ∷ [], e ∷ []) (omega arith)

drop_none : (es : List Endpoint) → drop_all es ([], []) ≡ ([], [])
unfolding drop_all contains
drop_none [] = refl
drop_none (e ∷ es) = drop_none es

rewrap-some : (es : List Endpoint) → 0 < length es → rewrap none es ≡ some es
rewrap-some [] h = absurd (omega arith)
rewrap-some (e ∷ es) h = refl

module _ {C P : Type 0} {kind : Bytes → Bool} {good : C → Bool} (ops : ProcOps C P)
    (laws : ProcLaws kind good ops)
    (all_start : (name : Bytes) (c : C) (hs : List SvcHost)
      → good c ≡ true
      → (p : P) × (ops.new_proc name c hs ≡ some p)) where
  -- A processor is told of the endpoints that were put to and dropped from its service's.
  repopulated :
      (name : Bytes) (c : C) (ds es va vr : List Endpoint) (ctl : Controller P)
      → Sound kind es
      → ((a : Bytes) → has es a ≡ ((has ds a && not (has vr a)) || has va a))
      → ((a : Bytes) → has vr a ≡ true → has va a ≡ false)
      → OfKind kind va
      → OfKind kind vr
      → Parts ops laws all_start (some c) (some ds) (lookup name ctl.procs)
      → let ctl' = handle_events ops (endpoint_event name va vr) ctl in
        Only ops laws all_start name ctl ctl'
        × Parts ops laws all_start (some c) (some es) (lookup name ctl'.procs)
  repopulated name c ds es va vr ctl d now apart kva kvr (_, p, k, t, e, g, r) =
      let (only₁, p₁, k₁, t₁, e₁, r₁) = hosts_added ops laws all_start name va ctl p k kva t in
      let (only₂, p₂, k₂, t₂, e₂, r₂) =
        hosts_removed ops laws all_start name vr (handle_svc_endpoints_add ops name va ctl) p₁ k₁
          kvr t₁ in
      rw (endpoint_event_lem ops laws all_start name va vr ctl) (
        λ j f. only₂ j f ∙ only₁ j f,
        (d, p₂, k₂, t₂, e₂ ∙ e₁ ∙ e, g, λ a. r₂ a ∙ ground (arith, r₁ a, r a, now a, apart a)),
      )

  unconfigured :
      (es : List Endpoint) (o : Option P)
      → Sound kind es
      → o ≡ none
      → Parts ops laws all_start none (rewrap none es) o
  unconfigured [] o d absent = absent
  unconfigured (e ∷ es) o d absent = (d, absent)

  -- What an update of the endpoints does for their service.
  pub populated :
      (name : Bytes) (added removed : List Endpoint) (cfg : Option C) (eps : Option (List Endpoint))
      (ctl : Controller P)
      → is_empty name ≡ false
      → (eps ≡ none → added ≢ [])
      → ((a : Bytes) → has removed a ≡ true → has added a ≡ false)
      → OfKind kind added
      → OfKind kind removed
      → Parts ops laws all_start cfg eps (lookup name ctl.procs)
      → let (ds, vr) = drop_all removed (read_all eps, []) in
        let (es, va) = put_all added (ds, []) in
        let ctl' = handle_events ops (update_events name cfg eps es va vr) ctl in
        Only ops laws all_start name ctl ctl'
        × Parts ops laws all_start cfg (rewrap eps es) (lookup name ctl'.procs)
  unfolding handle_events handle_event
  populated name added removed none none ctl named some_new apart ka kr v =
      let left = removed-IsLeft kind [] removed tt tt kr in
      let grown =
        added-IsGrown kind (drop_all removed ([], [])).0 added left.distinct left.kept ka in
      (λ j e. refl, unconfigured _ (lookup name ctl.procs) (grown.distinct, grown.kept) v)
  populated name added removed none (some ds) ctl named some_new apart ka kr v =
      let left = removed-IsLeft kind ds removed v.0.0 v.0.1 kr in
      let grown =
        added-IsGrown kind (drop_all removed (ds, [])).0 added left.distinct left.kept ka in
      (λ j e. refl, ((grown.distinct, grown.kept), v.1))
  populated name added removed (some c) none ctl named some_new apart ka kr v =
      let grown = added-IsGrown kind [] added tt tt ka in
      let es = (put_all added ([], [])).0 in
      rw (drop_none removed, rewrap-some es (put_some added (some_new refl)))
        (started ops laws all_start name c es ctl v.1 named v.0 (grown.distinct, grown.kept))
  populated name added removed (some c) (some ds) ctl named some_new apart ka kr v =
      let left = removed-IsLeft kind ds removed v.0.0 v.0.1 kr in
      let ds' = (drop_all removed (ds, [])).0 in
      let grown = added-IsGrown kind ds' added left.distinct left.kept ka in
      repopulated name c ds _ _ _ ctl (grown.distinct, grown.kept)
        (λ a.
          grown.grown a ∙ ap (λ (b : Bool). b || has (put_all added (ds', [])).1 a) (left.left a))
        (λ a h. elim (Bool-cases (has (put_all added (ds', [])).1 a)) [
          | inr no_more ↦ no_more
          | inl more ↦ cc (grown.among a more, apart a (left.among a h))
        ])
        grown.of_kind left.of_kind v
