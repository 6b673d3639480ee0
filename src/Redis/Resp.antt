-- ===== src/Redis/Resp.antt =====
-- proc/redis/resp.go: RESP values and their constructors. A nil slice is told from an empty one, as
-- the encoder does.
use samaritan.Prelude.{ℕ, suc, ◌≡◌, refl, Option, none, some, List, [], ◌∷◌, map, Bytes, ℤ, pos}

-- A RespType is a byte; `other` is a byte that names no type.
pub data RespType : Type 0 where
  simple_string error integer bulk_string array : RespType
  other : ℕ → RespType

-- struct RespValue { Type; Int; Text; Array }.
mutual
  pub data RespValue : Type 0 where
    resp_value : RespType → ℤ → Option Bytes → RespArray → RespValue

  pub data RespArray : Type 0 where
    slice_nil : RespArray
    slice_of : RespList → RespArray

  pub data RespList : Type 0 where
    nil : RespList
    cons : RespValue → RespList → RespList

abbrev pub typ : RespValue → RespType
typ (resp_value t i x a) = t

abbrev pub int : RespValue → ℤ
int (resp_value t i x a) = i

abbrev pub text : RespValue → Option Bytes
text (resp_value t i x a) = x

abbrev pub arr : RespValue → RespArray
arr (resp_value t i x a) = a

abbrev pub to_list : RespList → List RespValue
to_list nil = []
to_list (cons v l) = v ∷ to_list l

abbrev pub of_list : List RespValue → RespList
of_list [] = nil
of_list (v ∷ l) = cons v (of_list l)

pub to_list-of_list : (l : List RespValue) → to_list (of_list l) ≡ l
to_list-of_list [] = refl
to_list-of_list (v ∷ l) = cc (to_list-of_list l)

abbrev pub length_list : RespList → ℕ
length_list nil = 0
length_list (cons v l) = suc (length_list l)

-- The bytes of a slice, where nil reads as empty.
abbrev pub bytes_of : Option Bytes → Bytes
bytes_of none = []
bytes_of (some b) = b

-- The elements of a slice, where nil reads as empty.
abbrev pub elements : RespArray → List RespValue
elements slice_nil = []
elements (slice_of l) = to_list l

abbrev pub type_byte : RespType → ℕ
type_byte simple_string = b'+'
type_byte error = b'-'
type_byte integer = b':'
type_byte bulk_string = b'$'
type_byte array = b'*'
type_byte (other b) = b

abbrev pub new_error : Bytes → RespValue
new_error s = resp_value error (pos 0) (some s) slice_nil

abbrev pub new_simple_string : Bytes → RespValue
new_simple_string s = resp_value simple_string (pos 0) (some s) slice_nil

abbrev pub new_bulk_string : Bytes → RespValue
new_bulk_string s = resp_value bulk_string (pos 0) (some s) slice_nil

abbrev pub new_bulk_bytes : Option Bytes → RespValue
new_bulk_bytes s = resp_value bulk_string (pos 0) s slice_nil

abbrev pub new_null_bulk_string : RespValue
new_null_bulk_string = resp_value bulk_string (pos 0) none slice_nil

abbrev pub new_integer : ℤ → RespValue
new_integer i = resp_value integer i none slice_nil

-- A variadic call with no argument passes the nil slice.
abbrev pub new_array : List RespValue → RespValue
new_array [] = resp_value array (pos 0) none slice_nil
new_array (v ∷ l) = resp_value array (pos 0) none (slice_of (of_list (v ∷ l)))

-- The array that `make` built, never nil.
abbrev pub made_array : List RespValue → RespValue
made_array l = resp_value array (pos 0) none (slice_of (of_list l))

abbrev pub new_string_array : List Bytes → RespValue
new_string_array l = made_array (map new_bulk_string l)
