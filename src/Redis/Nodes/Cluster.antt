-- ===== src/Redis/Nodes/Cluster.antt =====
-- The instances of a cluster, by line, and the replicas of each master.
use samaritan.Prelude.{
  ℕ, Bool, true, false, not, ◌&&◌, ◌||◌, Option, none, some, List, [], ◌∷◌, ◌++◌, Bytes, bytes,
  bytes_equal, length, drop, get_or, ltb, ◌==◌, if◌then◌else◌, lf, ℤ,
}
use samaritan.Prelude.Assoc.{lookup, insert, delete}
use samaritan.Redis.Nodes.Segments.{
  Parsed, invalid, endless, parsed, split_by, parse_cluster_nodes_slot,
}

-- The replicas by their ids and addresses, which never change.
pub record Instance : Type 0 where
  pub id : Bytes
  pub addr : Bytes
  pub master_id : Bytes
  pub replicas : List (Bytes × Bytes)
  pub slots : List ℤ

abbrev pub Instances : Type 0
Instances = List (Bytes × Instance)

abbrev is_space : ℕ → Bool
is_space c = (c == 32) || (not (ltb c 9) && ltb c 14)

abbrev emit_word : Bytes → List Bytes → List Bytes
emit_word [] ws = ws
emit_word (c ∷ cs) ws = (c ∷ cs) ∷ ws

-- strings.Fields, for text in ASCII: the words between white space, of which `word` is being read.
unfoldable pub fields : Bytes → Bytes → List Bytes
fields word [] = emit_word word []
fields word (c ∷ cs) = elim (is_space c) [
  | true ↦ emit_word word (fields [] cs)
  | false ↦ fields (word ++ c ∷ []) cs
]

abbrev pub with_slots : Instances → Bytes → Bytes → Parsed (List ℤ) → Parsed Instances
with_slots m id addr invalid = invalid
with_slots m id addr endless = endless
with_slots m id addr (parsed s) =
    parsed (insert id (record { id = id; addr = addr; master_id = []; replicas = []; slots = s }) m)

-- One line
unfoldable pub parse_line : Instances → List Bytes → Parsed Instances
parse_line m fs =
    let id = get_or fs 0 [] in
    let addr = get_or (split_by b'@' (get_or fs 1 [])) 0 [] in
    if length fs == 0
    then parsed m
    else if ltb (length fs) 8
    then invalid
    else if not (length (split_by b':' addr) == 2)
    then invalid
    else if not (bytes_equal (get_or fs 3 []) (bytes "-"))
    then parsed (
        insert id
          (record { id = id; addr = addr; master_id = get_or fs 3 []; replicas = []; slots = [] })
          m)
    else if ltb (length fs) 9
    then invalid
    else with_slots m id addr (parse_cluster_nodes_slot (drop 8 fs))

unfoldable pub parse_lines : Instances → List Bytes → Parsed Instances
parse_lines m [] = parsed m
parse_lines m (l ∷ ls) = elim (parse_line m (fields [] l)) [
  | invalid ↦ invalid
  | endless ↦ endless
  | parsed m' ↦ parse_lines m' ls
]

-- A replica is appended to its master and taken out of the map; none is the panic of a nil master.
unfoldable pub attach_one : Instances → Bytes → Instance → Option Instances
attach_one m id inst =
    if length inst.master_id == 0 then some m else elim (lookup inst.master_id m) [
      | none ↦ none
      | some master ↦ some (
          delete id (
            insert inst.master_id
              (record master { replicas = master.replicas ++ (id, inst.addr) ∷ [] }) m))
    ]

-- The loop over the map's ids, in the order that Go gives them; a deleted id is not visited.
unfoldable pub attach : List Bytes → Instances → Option Instances
attach [] m = some m
attach (id ∷ ids) m = elim (lookup id m) [
  | none ↦ attach ids m
  | some inst ↦ elim (attach_one m id inst) [ none ↦ none | some m' ↦ attach ids m' ]
]

pub data Outcome : Type 0 where
  invalid_cluster_nodes never_returns panics : Outcome
  instances : Instances → Outcome

abbrev outcome : Option Instances → Outcome
outcome none = panics
outcome (some m) = instances m

-- `order` gives the ids of the map in the order of the loop.
unfoldable pub parse_cluster_nodes : (Instances → List Bytes) → Bytes → Outcome
parse_cluster_nodes order data_text = elim (parse_lines [] (split_by lf data_text)) [
  | invalid ↦ invalid_cluster_nodes
  | endless ↦ never_returns
  | parsed m ↦ outcome (attach (order m) m)
]
