-- ===== src/Tcp/Laws.antt =====
-- The TCP processor keeps what the controller tells it.
use samaritan.Prelude.{
  ◌≡◌, refl, sym, ap, subst, ◌∙◌, inl, inr, Bool, true, not, ◌&&◌, ◌||◌, Bool-cases, Option-cases,
  none, some, some-injective, List, Bytes, if◌then◌else◌, arith,
}
use samaritan.Host.Defs.{State, exist}
use samaritan.Controller.Defs.{SvcHost, took}
use samaritan.Controller.Hosts.{any_host}
use samaritan.Controller.Sync.{ProcLaws}
use samaritan.Tcp.Defs.{
  TcpProc, pointers, Checks, is_there, monitors, made_tcp_proc, reset_monitor, start_monitor,
  new_tcp_proc, on_svc_host_add, on_svc_host_remove, on_svc_config_update, tcp_ops,
}
use samaritan.Tcp.Known.{named-laid, exist-add, exist-remove, exist-new_set}

module _ {C : Type 0} (checks : Checks C) where
  made_of :
      (c : C) (hs : List SvcHost) (p : TcpProc C)
      → new_tcp_proc checks c hs ≡ some p
      → made_tcp_proc checks c hs ≡ p
  unfolding new_tcp_proc
  made_of c hs p e =
      elim (Bool-cases (checks.listens c && monitors checks (checks.health_check c))) [
        | inl v ↦ some-injective (made_tcp_proc checks c hs) p (made v)
        | inr v ↦ absurd (let none_made = made v in cc)
      ]
    where
      made :
          {b : Bool}
          → (checks.listens c && monitors checks (checks.health_check c)) ≡ b
          → (if b then some (made_tcp_proc checks c hs) else none) ≡ some p
      made v =
          subst (λ (b : Bool). (if b then some (made_tcp_proc checks c hs) else none) ≡ some p) v e

  new_hosts :
      (c : C) (hs : List SvcHost) (a : Bytes)
      → exist (made_tcp_proc checks c hs).hosts.set a ≡ any_host hs a
  new_hosts c hs a = exist-new_set _ (pointers hs 0) a ∙ named-laid hs 0 _ a

  -- A valid configuration with a health check of which a checker is made, for which a listener opens.
  abbrev pub good : C → Bool
  good c =
      checks.valid c
      && (checks.listens c
          && (is_there (checks.health_check c) && monitors checks (checks.health_check c)))

  -- Such a configuration is taken in an update.
  good_taken :
      (c : C) (p : TcpProc C)
      → good c ≡ true
      → (p' : TcpProc C) × (on_svc_config_update checks c p ≡ took p')
        × (p'.cfg ≡ c)
        × (p'.hosts ≡ p.hosts)
  unfolding on_svc_config_update
  good_taken c p g = elim (Option-cases (checks.health_check c)) [
    | inl e ↦ absurd (ground (arith, g, e))
    | inr (h, e) ↦
        elim (Bool-cases (checks.same (checks.health_check p.cfg) (checks.health_check c))) [
          | inl s ↦ (record p { cfg = c }, rw s refl, refl, refl)
          | inr s ↦
              let ok : checks.accepts h ≡ true = ground (arith, g, e) in
              elim (Bool-cases p.monitored) [
                | inl m ↦ (
                  record p { cfg = c },
                  rw s (
                      subst
                        (λ (b : Bool).
                          (if b
                            then reset_monitor checks c p (checks.health_check c)
                            else start_monitor checks c p (checks.health_check c))
                          ≡ took (record p { cfg = c }))
                        (sym m) (rw (e, reset_monitor, ok) refl)),
                  refl,
                  refl,
                )
                | inr m ↦ (
                  record p { cfg = c; monitored = true },
                  rw (s, m, e, start_monitor, ok) refl,
                  refl,
                  refl,
                )
              ]
        ]
  ]

  -- The set of hosts has just the addresses that it was told of, whatever the types of the hosts.
  pub tcp_laws : (kind : Bytes → Bool) → ProcLaws kind good (tcp_ops checks)
  unfolding new_tcp_proc on_svc_host_add on_svc_host_remove on_svc_config_update
  tcp_laws kind = record {
    registered = λ p a. exist p.hosts.set a;
    config_of = λ p. p.cfg;
    Typed = λ p. Unit;
    new_Typed = λ name c hs p e k. tt;
    add_Typed = λ hs p l k. tt;
    remove_Typed = λ hs p l k. tt;
    good_valid = λ c g. ground arith;
    new_config = λ name c hs p e. ap (λ (q : TcpProc C). q.cfg) (sym (made_of c hs p e));
    new_registered = λ name c hs p a e.
        ap (λ (q : TcpProc C). exist q.hosts.set a) (sym (made_of c hs p e)) ∙ new_hosts c hs a;
    add_config = λ hs p. refl;
    add_registered = λ hs p a l k.
        exist-add _ p.hosts.set (pointers hs p.next) a
        ∙ ap (λ (b : Bool). b || exist p.hosts.set a) (named-laid hs p.next p.hosts.heap a);
    remove_config = λ hs p. refl;
    remove_registered = λ hs p a l k.
        exist-remove _ (pointers hs p.next) a
        ∙ ap (λ (b : Bool). exist p.hosts.set a && not b) (named-laid hs p.next p.hosts.heap a);
    update_taken = λ c p g before t.
        let (p', taken, e, same) = good_taken c p g in
        (p', taken, tt, e, λ a. ap (λ (h : State). exist h.set a) same);
  }

  -- A processor starts with such a configuration.
  pub good_starts :
      (name : Bytes) (c : C) (hs : List SvcHost)
      → good c ≡ true
      → (p : TcpProc C) × ((tcp_ops checks).new_proc name c hs ≡ some p)
  unfolding new_tcp_proc
  good_starts name c hs g = (made_tcp_proc checks c hs, ground arith)
