-- ===== src/Redis/Upstream/Route.antt =====
-- chooseHost and handleRedirection.
use samaritan.Prelude.{
  ℕ, ◌%◌, Option, none, some, List, [], ◌∷◌, map, Bytes, bytes, bytes_equal, length, get_elem?, ltb,
  if◌then◌else◌,
}
use samaritan.Redis.Resp.{RespValue, text, bytes_of}
use samaritan.Redis.Slot.Hashtag.{slot_of}
use samaritan.Redis.Request.ReadOnly.{is_read_only, to_lower}
use samaritan.Redis.Nodes.Segments.{split_by}
use samaritan.Redis.Nodes.Cluster.{Instance}

pub data ReadStrategy : Type 0 where
  master both replica : ReadStrategy
  other : ℕ → ReadStrategy

abbrev pub Slots : Type 0
Slots = ℕ → Option Instance

abbrev pub replica_addrs : Instance → List Bytes
replica_addrs inst = map (λ (r : Bytes × Bytes). r.1) inst.replicas

-- The candidates of the switch, before the case of none.
unfoldable pub by_strategy : ReadStrategy → Instance → List Bytes
by_strategy master inst = inst.addr ∷ []
by_strategy both inst = inst.addr ∷ replica_addrs inst
by_strategy replica inst = replica_addrs inst
by_strategy (other n) inst = []

abbrev pub or_else : Bytes → List Bytes → List Bytes
or_else m [] = m ∷ []
or_else m (a ∷ l) = a ∷ l

unfoldable pub candidates : ReadStrategy → Instance → List Bytes
unfolding by_strategy
candidates s inst = or_else inst.addr (by_strategy s inst)

-- `now` is the time in nanoseconds; the length of the candidates is not 0.
abbrev pub pick : ℕ → List Bytes → Option Bytes
pick now cs = get_elem? cs (if ltb 1 (length cs) then now % length cs else 0)

-- `random` is what randomHost returns, an address unless no host is healthy.
abbrev pub to_instance :
    ReadStrategy → Option Bytes → ℕ → List RespValue → Option Instance → Option Bytes
to_instance strategy random now body none = random
to_instance strategy random now body (some inst) =
    if is_read_only body then pick now (candidates strategy inst) else some inst.addr

unfoldable pub choose_host :
    ReadStrategy → Slots → Option Bytes → ℕ → Bytes → List RespValue → Option Bytes
choose_host strategy slots random now routing_key body =
    to_instance strategy random now body (slots (slot_of routing_key))

-- What a redirection sends: to an address, the request itself or ASKING ahead of it.
pub data Sends : Type 0 where
  request asking : Bytes → Sends

-- The words of an error; none is the panic on an error of fewer than three words.
abbrev pub third : List Bytes → Option (Bytes × Bytes)
third (a ∷ b ∷ c ∷ rest) = some (a, c)
third _ = none

abbrev pub by_word : Bytes → Bytes → List Sends
by_word word addr =
    if bytes_equal word (bytes "moved")
    then request addr ∷ []
    else if bytes_equal word (bytes "ask")
    then asking addr ∷ request addr ∷ []
    else []

-- handleRedirection, whose refresh of the slots is triggered in any case.
unfoldable pub handle_redirection : RespValue → Option (List Sends)
handle_redirection v = elim (third (split_by b' ' (bytes_of (text v)))) [
  | none ↦ none
  | some (word, addr) ↦ some (by_word (to_lower word) addr)
]
