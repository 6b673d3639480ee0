-- ===== src/Redis/Upstream/Refresh.antt =====
-- Routing after a refresh of the slots.
use mathlib.Core.List.{Mem, Memᴰ, Perm}
use mathlib.Core.List.Memᴰ.{head, tail}
use mathlib.Core.List.Perm
use mathlib.Core.Logic.{∥∥₁_elim}
use mathlib.Core.HLevel.{⊥_prop}
use samaritan.Prelude.{
  ℕ, ◌≡◌, ◌≢◌, sym, ap, subst, ◌∙◌, ◌⊎◌, inl, inr, Bool, true, false, Bool-cases, Option, none,
  some, some-injective, Option-cases, List, [], ◌∷◌, Bytes, if◌then◌else◌,
}
use samaritan.Redis.Resp.{RespValue, new_bulk_string}
use samaritan.Redis.Slot.Hashtag.{slot_of}
use samaritan.Redis.Slot.Table.{slot_of-in_range}
use samaritan.Redis.Request.ReadOnly.{is_read_only}
use samaritan.Redis.Nodes.Cluster.{Instance, Instances, instances, parse_cluster_nodes}
use samaritan.Redis.Upstream.Route.{ReadStrategy, Slots, to_instance, choose_host}
use samaritan.Redis.Upstream.Targets.{choose_host-target}
use samaritan.Redis.Upstream.Slots.{
  do_slots_refresh, refreshed, update_slots, lists, owner, or_else, update_slots_lem, with_outcome,
}

owner-some :
    (n : ℕ) (m : Instances) (inst : Instance)
    → owner n m ≡ some inst
    → (id : Bytes) × Memᴰ (id, inst) m × (lists n inst.slots ≡ true)
owner-some n [] inst h = cc
owner-some n ((id, i) ∷ m) inst h = elim (Option-cases (owner n m)) [
  | inr (j, e) ↦
      let same : j ≡ inst =
        some-injective j inst
          (sym (ap (λ x. or_else x (if lists n i.slots then some i else none)) e) ∙ h) in
      let (id', at, has) = owner-some n m inst (e ∙ ap some same) in (id', tail at, has)
  | inl e ↦
      let here : (if lists n i.slots then some i else none) ≡ some inst =
        sym (ap (λ x. or_else x (if lists n i.slots then some i else none)) e) ∙ h in
      elim (Bool-cases (lists n i.slots)) [
        | inr f ↦ absurd (
            let none_here = subst (λ (b : Bool). (if b then some i else none) ≡ some inst) f here in
            cc)
        | inl f ↦
            let same =
              some-injective i inst
                (subst (λ (b : Bool). (if b then some i else none) ≡ some inst) f here) in
            (
              id,
              head (ap (λ (x : Instance). (id, x)) (sym same)),
              subst (λ (x : Instance). lists n x.slots ≡ true) same f,
            )
      ]
]

owner-none :
    (n : ℕ) (m : Instances)
    → owner n m ≡ none
    → (e : Bytes × Instance) → Memᴰ e m
    → lists n e.1.slots ≢ true
owner-none n [] h e at listed = elim at [ ]
owner-none n ((id, i) ∷ m) h e at listed = elim (Option-cases (owner n m)) [
  | inr (j, k) ↦ absurd (
      let some_here = sym (ap (λ x. or_else x (if lists n i.slots then some i else none)) k) ∙ h in
      cc)
  | inl k ↦
      let here : (if lists n i.slots then some i else none) ≡ none =
        sym (ap (λ x. or_else x (if lists n i.slots then some i else none)) k) ∙ h in
      elim at [
        | head same ↦
            let yes' = subst (λ (x : Bytes × Instance). lists n x.1.slots ≡ true) same listed in
            absurd (
              let some_here = subst (λ (b : Bool). (if b then some i else none) ≡ none) yes' here in
              cc)
        | tail at' ↦ owner-none n m k e at' listed
      ]
]

-- After an answer to CLUSTER NODES that the parser takes, whatever the order in which the loop visits
-- the parsed instances, a request that may write, on any key, goes to one of them that lists the
-- key's slot. If none lists it, the request goes where it would have gone before.
pub write-after_refresh :
    (order : Instances → List Bytes) (visit : Instances → Instances) (before after : Slots)
    (answer : Bytes) (m : Instances) (s : ReadStrategy) (random : Option Bytes) (now : ℕ)
    (key : Bytes) (body : List RespValue)
    → Perm (visit m) m
    → parse_cluster_nodes order answer ≡ instances m
    → do_slots_refresh order visit before (new_bulk_string answer) ≡ refreshed after
    → is_read_only body ≡ false
    → ((e : Bytes × Instance) × Mem e m
        × (lists (slot_of key) e.1.slots ≡ true)
        × (choose_host s after random now key body ≡ some e.1.addr))
      ⊎ (((e : Bytes × Instance) → Mem e m → lists (slot_of key) e.1.slots ≢ true)
          × (choose_host s after random now key body ≡ choose_host s before random now key body))
unfolding do_slots_refresh choose_host
write-after_refresh order visit before after answer m s random now key body perm p r w =
    let n = slot_of key in
    let same : refreshed (update_slots before (visit m)) ≡ refreshed after =
      ap (with_outcome visit before) (sym p) ∙ r in
    let after_is : after ≡ update_slots before (visit m) = cc same in
    let here : after n ≡ or_else (owner n (visit m)) (before n) =
      ap (λ (t : Slots). t n) after_is
      ∙ update_slots_lem n (visit m) before (slot_of-in_range key).1 in
    elim (Option-cases (owner n (visit m))) [
      | inr (inst, o) ↦
          let (id, at, has) = owner-some n (visit m) inst o in
          let (a, c, to_master, _) =
            choose_host-target s after random now key body inst
              (here ∙ ap (λ x. or_else x (before n)) o) in
          inl ((id, inst), (Perm.mem_iff perm).0 ∣ at ∣₁, has, c ∙ ap some (to_master w))
      | inl o ↦ inr (
        (λ e at listed.
            ∥∥₁_elim ((Perm.mem_iff perm).1 at) ⊥_prop (λ d. owner-none n (visit m) o e d listed)),
        ap (to_instance s random now body) (here ∙ ap (λ x. or_else x (before n)) o),
      )
    ]
