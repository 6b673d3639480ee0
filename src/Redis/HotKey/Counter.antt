-- ===== src/Redis/HotKey/Counter.antt =====
-- Counter of proc/redis/hotkey/counter.go: keys with their hits, of which the least used is evicted.
-- The doubly linked list of frequency nodes is the list of them from freqHead on, the items of a node
-- are the list from itemHead on, and the node of an item is known by its frequency, since no two
-- nodes of a counter have the same one.
use samaritan.Prelude.{
  ℕ, ◌+◌, ◌%◌, ◌^◌, Option, none, some, List, [], ◌∷◌, ◌++◌, Bytes, bytes_equal, length, leb, ◌==◌,
  if◌then◌else◌,
}
use samaritan.Prelude.Assoc.{lookup, insert, delete}

pub record FreqNode : Type 0 where
  pub freq : ℕ
  pub item_list : List Bytes

-- `items` has the frequency of each item's node.
pub record Counter : Type 0 where
  pub capacity : ℕ
  pub items : List (Bytes × ℕ)
  pub chain : List FreqNode

unfoldable pub new_counter : ℕ → Counter
new_counter capacity = record { capacity = capacity; items = []; chain = [] }

-- freq is a uint64.
abbrev pub next_freq : ℕ → ℕ
next_freq f = (f + 1) % 2 ^ 64

-- itemNode.Free: the item leaves the list of its node.
unfoldable pub free_item : Bytes → List Bytes → List Bytes
free_item key [] = []
free_item key (k ∷ ks) = let rest = k ∷ free_item key ks in if bytes_equal k key then ks else rest

abbrev pub append_item : Bytes → FreqNode → FreqNode
append_item key n = record n { item_list = n.item_list ++ key ∷ [] }

-- The item in the node of frequency g, which is the next one or put before it.
unfoldable pub to_next : Bytes → ℕ → List FreqNode → List FreqNode
to_next key g [] = record { freq = g; item_list = key ∷ [] } ∷ []
to_next key g (n ∷ ns) =
    if n.freq == g
    then append_item key n ∷ ns
    else record { freq = g; item_list = key ∷ [] } ∷ n ∷ ns

-- A node with the items that are left, unless it is empty and freed.
abbrev pub keep_node : ℕ → List Bytes → List FreqNode → List FreqNode
keep_node f [] ns = ns
keep_node f (k ∷ ks) ns = record { freq = f; item_list = k ∷ ks } ∷ ns

-- The item moves from the node of frequency f to that of the next one.
unfoldable pub move : Bytes → ℕ → List FreqNode → List FreqNode
move key f [] = []
move key f (n ∷ ns) =
    let rest = n ∷ move key f ns in
    if n.freq == f
    then keep_node f (free_item key n.item_list) (to_next key (next_freq f) ns)
    else rest

unfoldable pub increment : Bytes → ℕ → Counter → Counter
increment key f c = record c {
  items = insert key (next_freq f) c.items;
  chain = move key f c.chain;
}

abbrev pub to_first : Bytes → List FreqNode → List FreqNode
to_first key ns = to_next key 1 ns

unfoldable pub add : Bytes → Counter → Counter
add key c = record c { items = insert key 1 c.items; chain = to_first key c.chain }

-- `none` is the panic on a list without a first item.
abbrev pub evict_from : Counter → List FreqNode → Option Counter
evict_from c [] = none
evict_from c (n ∷ ns) = elim (n.item_list) [
  | [] ↦ none
  | k ∷ ks ↦ some (record c { items = delete k c.items; chain = keep_node n.freq ks ns })
]

unfoldable pub evict : Counter → Option Counter
evict c = evict_from c c.chain

abbrev pub then_add : Bytes → Option Counter → Option Counter
then_add key none = none
then_add key (some c) = some (add key c)

-- The number of items is compared as a uint8.
abbrev pub incr_new : Bytes → Counter → Option Counter
incr_new key c = then_add key (if leb c.capacity (length c.items % 2 ^ 8) then evict c else some c)

unfoldable pub incr : Bytes → Counter → Option Counter
incr key c = elim (lookup key c.items) [ none ↦ incr_new key c | some f ↦ some (increment key f c) ]

unfoldable pub reset : Counter → Counter
reset c = record c { items = []; chain = [] }

unfoldable pub latch : Counter → List (Bytes × ℕ) × Counter
unfolding reset
latch c = (c.items, reset c)
