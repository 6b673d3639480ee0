-- ===== src/Config/Defs.antt =====
-- Config of config/config.go, with the events of config/event.go. A service's configuration is of any
-- type; an endpoint has an address. Each of the handlers holds the lock, and the events that it puts
-- into the channel are its result.
use samaritan.Prelude.{
  ℕ, Bool, true, false, ◌&&◌, ◌||◌, Option, none, some, List, [], ◌∷◌, ◌++◌, Bytes, bytes_equal,
  ◌==◌, if◌then◌else◌,
}
use samaritan.Prelude.Assoc.{lookup, insert, delete}

-- With the bytes of the fields that the generated code does not know.
pub record Address : Type 0 where
  pub ip : Bytes
  pub port : ℕ
  pub unrecognized : Bytes

-- `backup` tells whether the endpoint's type is BACKUP.
pub record Endpoint : Type 0 where
  pub address : Address
  pub backup : Bool

abbrev pub same_address : Endpoint → Endpoint → Bool
same_address d e =
    bytes_equal d.address.ip e.address.ip
    && (d.address.port == e.address.port
        && bytes_equal d.address.unrecognized e.address.unrecognized)

-- A service wrapper, of which either part may be nil.
pub record Wrapper (C : Type 0) : Type 0 where
  pub config : Option C
  pub endpoints : Option (List Endpoint)

pub data Event (C : Type 0) : Type 0 where
  svc_add : Bytes → Option C → List Endpoint → Event C
  svc_remove : Bytes → Event C
  svc_config : Bytes → C → Event C
  svc_endpoint : Bytes → List Endpoint → List Endpoint → Event C

abbrev pub Wrappers : Type 0 → Type 0
Wrappers C = List (Bytes × Wrapper C)

-- A nil slice reads as empty.
abbrev pub read_all : Option (List Endpoint) → List Endpoint
read_all none = []
read_all (some es) = es

-- isContainEndpoint
unfoldable pub contains : List Endpoint → Endpoint → Bool
contains [] e = false
contains (x ∷ xs) e = same_address x e || contains xs e

-- The endpoints without the first that has e's address.
unfoldable pub cut : List Endpoint → Endpoint → List Endpoint
cut [] e = []
cut (x ∷ xs) e = let rest = x ∷ cut xs e in if same_address x e then xs else rest

abbrev pub drop_one : Endpoint → List Endpoint × List Endpoint → List Endpoint × List Endpoint
drop_one e (es, valid) = if contains es e then (cut es e, valid ++ e ∷ []) else (es, valid)

abbrev pub put_one : Endpoint → List Endpoint × List Endpoint → List Endpoint × List Endpoint
put_one e (es, valid) = if contains es e then (es, valid) else (es ++ e ∷ [], valid ++ e ∷ [])

-- The loops over the removed and the added endpoints, with those that were there and those that were
-- not.
unfoldable pub drop_all :
    List Endpoint → List Endpoint × List Endpoint → List Endpoint × List Endpoint
drop_all [] s = s
drop_all (e ∷ es) s = drop_all es (drop_one e s)

unfoldable pub put_all :
    List Endpoint → List Endpoint × List Endpoint → List Endpoint × List Endpoint
put_all [] s = s
put_all (e ∷ es) s = put_all es (put_one e s)

-- A nil slice to which nothing was appended is nil.
abbrev pub rewrap : Option (List Endpoint) → List Endpoint → Option (List Endpoint)
rewrap none [] = none
rewrap none (e ∷ es) = some (e ∷ es)
rewrap (some ds) es = some es

abbrev pub nothing_changed : List Endpoint → List Endpoint → Bool
nothing_changed [] [] = true
nothing_changed _ _ = false

module _ {C : Type 0} where
  abbrev pub endpoint_event : Bytes → List Endpoint → List Endpoint → List (Event C)
  endpoint_event name [] [] = []
  endpoint_event name added removed = svc_endpoint name added removed ∷ []

  abbrev pub depend_one : Wrappers C → Bytes → Wrappers C
  depend_one sws name = elim (lookup name sws) [
    | some w ↦ sws
    | none ↦ insert name (record { config = none; endpoints = none }) sws
  ]

  unfoldable pub depend_all : Wrappers C → List Bytes → Wrappers C
  depend_all sws [] = sws
  depend_all sws (name ∷ names) = depend_all (depend_one sws name) names

  abbrev pub forget_one : Wrappers C → Bytes → Wrappers C × List (Event C)
  forget_one sws name = elim (lookup name sws) [
    | none ↦ (sws, [])
    | some w ↦ (delete name sws, svc_remove name ∷ [])
  ]

  unfoldable pub forget_all : Wrappers C → List Bytes → Wrappers C × List (Event C)
  forget_all sws [] = (sws, [])
  forget_all sws (name ∷ names) =
      let (sws₁, es) = forget_one sws name in
      let (sws₂, fs) = forget_all sws₁ names in (sws₂, es ++ fs)

  -- By the names of the services.
  unfoldable pub handle_dependency_update :
      List Bytes → List Bytes → Wrappers C → Wrappers C × List (Event C)
  unfolding depend_all forget_all
  handle_dependency_update added removed sws = forget_all (depend_all sws added) removed

  abbrev pub config_events : Bytes → C → Option C → Option (List Endpoint) → List (Event C)
  config_events name c old none = []
  config_events name c none (some es) = svc_add name (some c) es ∷ []
  config_events name c (some b) (some es) = svc_config name c ∷ []

  abbrev pub with_config : Bytes → C → Wrappers C → Option (Wrapper C) → Wrappers C × List (Event C)
  with_config name c sws none = (sws, [])
  with_config name c sws (some w) =
      (insert name (record w { config = some c }) sws, config_events name c w.config w.endpoints)

  unfoldable pub handle_svc_config_update : Bytes → C → Wrappers C → Wrappers C × List (Event C)
  handle_svc_config_update name c sws = with_config name c sws (lookup name sws)

  abbrev pub update_events :
      Bytes
      → Option C
      → Option (List Endpoint)
      → List Endpoint
      → List Endpoint
      → List Endpoint
      → List (Event C)
  update_events name none old es added removed = []
  update_events name (some c) none es added removed = svc_add name (some c) es ∷ []
  update_events name (some c) (some ds) es added removed = endpoint_event name added removed

  abbrev pub with_endpoints :
      Bytes
      → List Endpoint
      → List Endpoint
      → Wrappers C
      → Option (Wrapper C)
      → Wrappers C × List (Event C)
  with_endpoints name added removed sws none = (sws, [])
  with_endpoints name added removed sws (some w) =
      let (ds, valid_removed) = drop_all removed (read_all w.endpoints, []) in
      let (es, valid_added) = put_all added (ds, []) in
      (
        insert name (record w { endpoints = rewrap w.endpoints es }) sws,
        update_events name w.config w.endpoints es valid_added valid_removed,
      )

  unfoldable pub handle_svc_endpoint_update :
      Bytes → List Endpoint → List Endpoint → Wrappers C → Wrappers C × List (Event C)
  handle_svc_endpoint_update name added removed sws =
      if nothing_changed added removed
      then (sws, [])
      else with_endpoints name added removed sws (lookup name sws)

  -- initStaticSvcs, over services that are not nil.
  unfoldable pub init_static_svcs :
      List (Bytes × Wrapper C) → Wrappers C → Wrappers C × List (Event C)
  init_static_svcs [] sws = (sws, [])
  init_static_svcs ((name, w) ∷ svcs) sws =
      let (sws', es) = init_static_svcs svcs (insert name w sws) in
      (sws', svc_add name w.config (read_all w.endpoints) ∷ es)
