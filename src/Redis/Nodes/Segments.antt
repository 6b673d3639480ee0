-- ===== src/Redis/Nodes/Segments.antt =====
-- The slots of a node.
use samaritan.Prelude.{
  ℕ, zero, suc, ◌+◌, ◌-◌, Bool, false, ◌&&◌, Option, none, some, List, [], ◌∷◌, ◌++◌, Bytes, ◌==◌,
  if◌then◌else◌, ℤ, pos, negsuc, ◌+ℤ◌, pos_part, neg_part,
}
use samaritan.Strconv.{parse_int}

abbrev push : ℕ → List Bytes → List Bytes
push b [] = (b ∷ []) ∷ []
push b (w ∷ ws) = (b ∷ w) ∷ ws

-- strings.Split by one byte: one part more than there are such bytes.
unfoldable pub split_by : ℕ → Bytes → List Bytes
split_by c [] = [] ∷ []
split_by c (b ∷ bs) = let rest = split_by c bs in if b == c then [] ∷ rest else push b rest

abbrev pub last_is : ℕ → Bytes → Bool
last_is c [] = false
last_is c (b ∷ []) = b == c
last_is c (b ∷ d ∷ bs) = last_is c (d ∷ bs)

abbrev pub starts_with : ℕ → Bytes → Bool
starts_with c [] = false
starts_with c (b ∷ bs) = b == c

-- A slot that is imported or migrated.
abbrev pub is_migrating : Bytes → Bool
is_migrating seg = starts_with b'[' seg && last_is b']' seg

-- n integers from i on.
abbrev pub count_from : ℕ → ℤ → List ℤ
count_from zero i = []
count_from (suc n) i = i ∷ count_from n (i +ℤ pos 1)

-- end - start + 1, and 0 if that is negative.
abbrev span : ℤ → ℤ → ℕ
span start end = pos_part end + neg_part start + 1 - (pos_part start + neg_part end)

-- Errors are errInvalidClusterNodes; `endless` is a loop that never ends.
pub data Parsed {ℓ} (A : Type ℓ) : Type ℓ where
  invalid endless : Parsed A
  parsed : A → Parsed A

-- Every int is at most the greatest one, so the loop up to it wraps around and goes on.
abbrev pub is_greatest : ℤ → Bool
is_greatest (pos n) = n == 0x7fff_ffff_ffff_ffff
is_greatest (negsuc n) = false

abbrev pub range_of : Option ℤ → Option ℤ → Parsed (List ℤ)
range_of (some a) (some b) = if is_greatest b then endless else parsed (count_from (span a b) a)
range_of _ _ = invalid

abbrev pub single_of : Option ℤ → Parsed (List ℤ)
single_of none = invalid
single_of (some a) = parsed (a ∷ [])

abbrev pub by_parts : List Bytes → Parsed (List ℤ)
by_parts (p ∷ []) = single_of (parse_int p)
by_parts (p ∷ q ∷ []) = range_of (parse_int p) (parse_int q)
by_parts _ = invalid

unfoldable pub parse_segment : Bytes → Parsed (List ℤ)
parse_segment seg = if is_migrating seg then parsed [] else by_parts (split_by b'-' seg)

-- The first segment that is invalid or endless decides.
abbrev pub append_slots : Parsed (List ℤ) → Parsed (List ℤ) → Parsed (List ℤ)
append_slots (parsed a) (parsed b) = parsed (a ++ b)
append_slots (parsed a) invalid = invalid
append_slots (parsed a) endless = endless
append_slots invalid _ = invalid
append_slots endless _ = endless

-- parseClusterNodesSlot
unfoldable pub parse_cluster_nodes_slot : List Bytes → Parsed (List ℤ)
parse_cluster_nodes_slot [] = parsed []
parse_cluster_nodes_slot (s ∷ ss) = append_slots (parse_segment s) (parse_cluster_nodes_slot ss)
