-- ===== src/Redis/Upstream/Slots.antt =====
-- doSlotsRefresh: the slots after an answer to CLUSTER NODES.
use samaritan.Prelude.{
  ℕ, ◌<◌, ◌≡◌, refl, ap, ◌∙◌, Bool, true, false, ◌||◌, Option, none, some, List, [], ◌∷◌, Bytes,
  ltb, ◌==◌, if◌then◌else◌, ℤ, pos, negsuc, arith,
}
use samaritan.Redis.Resp.{error, bulk_string, RespValue, typ, text, bytes_of}
use samaritan.Redis.Slot.Crc.{slot_num}
use samaritan.Redis.Nodes.Cluster.{
  Instance, Instances, Outcome, invalid_cluster_nodes, never_returns, panics, instances,
  parse_cluster_nodes,
}
use samaritan.Redis.Upstream.Route.{Slots}

abbrev update : Slots → ℕ → Instance → Slots
update slots n inst m = if n == m then some inst else slots m

-- A slot of an instance, unless it is out of range.
unfoldable pub update_slot : Instance → Slots → ℤ → Slots
update_slot inst slots (pos n) = if ltb n slot_num then update slots n inst else slots
update_slot inst slots (negsuc n) = slots

unfoldable pub update_instance : Instance → Slots → List ℤ → Slots
update_instance inst slots [] = slots
update_instance inst slots (i ∷ is) = update_instance inst (update_slot inst slots i) is

-- The loop over the entries of the map, in the order in which they are listed.
unfoldable pub update_slots : Slots → Instances → Slots
update_slots slots [] = slots
update_slots slots ((id, inst) ∷ m) = update_slots (update_instance inst slots inst.slots) m

pub data RefreshError : Type 0 where
  replied_error : Bytes → RefreshError
  invalid_answer : RefreshError

pub data Refreshed : Type 0 where
  refreshed : Slots → Refreshed
  refused : RefreshError → Refreshed
  panicked stuck : Refreshed

abbrev pub with_outcome : (Instances → Instances) → Slots → Outcome → Refreshed
with_outcome visit slots never_returns = stuck
with_outcome visit slots invalid_cluster_nodes = refused invalid_answer
with_outcome visit slots panics = panicked
with_outcome visit slots (instances m) = refreshed (update_slots slots (visit m))

-- On the response to CLUSTER NODES. `order` and `visit` give the orders of the loops over the map,
-- parseClusterNodes's and the one that updates the slots.
unfoldable pub do_slots_refresh :
    (Instances → List Bytes) → (Instances → Instances) → Slots → RespValue → Refreshed
do_slots_refresh order visit slots v = elim (typ v) [
  | error ↦ refused (replied_error (bytes_of (text v)))
  | bulk_string ↦ with_outcome visit slots (parse_cluster_nodes order (bytes_of (text v)))
  | _ ↦ refused invalid_answer
]

-- Whether an instance lists the slot.
abbrev pub lists : ℕ → List ℤ → Bool
lists n [] = false
lists n (pos m ∷ is) = m == n || lists n is
lists n (negsuc m ∷ is) = lists n is

abbrev pub or_else : Option Instance → Option Instance → Option Instance
or_else none o = o
or_else (some i) o = some i

-- The last instance that lists the slot.
abbrev pub owner : ℕ → Instances → Option Instance
owner n [] = none
owner n ((id, inst) ∷ m) = or_else (owner n m) (if lists n inst.slots then some inst else none)

update_instance_lem :
    (inst : Instance) (n : ℕ) (is : List ℤ) (slots : Slots)
    → n < slot_num
    → update_instance inst slots is n ≡ (if lists n is then some inst else slots n)
unfolding update_instance update_slot
update_instance_lem inst n [] slots h = refl
update_instance_lem inst n (negsuc m ∷ is) slots h = update_instance_lem inst n is slots h
update_instance_lem inst n (pos m ∷ is) slots h =
    update_instance_lem inst n is (update_slot inst slots (pos m)) h ∙ ground arith

pub update_slots_lem :
    (n : ℕ) (m : Instances) (slots : Slots)
    → n < slot_num
    → update_slots slots m n ≡ or_else (owner n m) (slots n)
unfolding update_slots
update_slots_lem n [] slots h = refl
update_slots_lem n ((id, inst) ∷ m) slots h =
    update_slots_lem n m (update_instance inst slots inst.slots) h
    ∙ ap (or_else (owner n m)) (update_instance_lem inst n inst.slots slots h)
    ∙ last_of (owner n m) (lists n inst.slots)
  where
    last_of :
        (o : Option Instance) (b : Bool)
        → or_else o (if b then some inst else slots n)
          ≡ or_else (or_else o (if b then some inst else none)) (slots n)
    last_of none true = refl
    last_of none false = refl
    last_of (some i) b = refl
