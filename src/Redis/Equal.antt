-- ===== src/Redis/Equal.antt =====
-- proc/redis/resp.go: Equal and String of a value, neither of them at a nil pointer.
use samaritan.Prelude.{
  ◌≡◌, refl, ap, ap₂, Bool, true, false, ◌&&◌, [], ◌∷◌, ◌++◌, Bytes, bytes_equal, bytes_equal→eq,
  ◌==◌, ℤ, pos, negsuc, arith,
}
use samaritan.Strconv.{format_int}
use samaritan.Redis.Resp.{
  simple_string, error, integer, bulk_string, array, other, RespValue, resp_value, RespArray,
  slice_nil, slice_of, RespList, nil, cons, bytes_of,
}

abbrev equal_ℤ : ℤ → ℤ → Bool
equal_ℤ (pos a) (pos b) = a == b
equal_ℤ (negsuc a) (negsuc b) = a == b
equal_ℤ _ _ = false

-- Equal. A nil slice and an empty one have the same length.
unfoldable mutual
  pub equal : RespValue → RespValue → Bool
  equal (resp_value integer i x a) (resp_value integer j y b) = equal_ℤ i j
  equal (resp_value array i x a) (resp_value array j y b) = equal_array a b
  equal (resp_value simple_string i x a) (resp_value simple_string j y b) =
      bytes_equal (bytes_of x) (bytes_of y)
  equal (resp_value error i x a) (resp_value error j y b) = bytes_equal (bytes_of x) (bytes_of y)
  equal (resp_value bulk_string i x a) (resp_value bulk_string j y b) =
      bytes_equal (bytes_of x) (bytes_of y)
  equal (resp_value (other s) i x a) (resp_value (other t) j y b) =
      s == t && bytes_equal (bytes_of x) (bytes_of y)
  equal _ _ = false

  pub equal_array : RespArray → RespArray → Bool
  equal_array slice_nil slice_nil = true
  equal_array slice_nil (slice_of nil) = true
  equal_array slice_nil (slice_of (cons w m)) = false
  equal_array (slice_of nil) slice_nil = true
  equal_array (slice_of (cons v l)) slice_nil = false
  equal_array (slice_of l) (slice_of m) = equal_items l m

  pub equal_items : RespList → RespList → Bool
  equal_items nil nil = true
  equal_items (cons v l) (cons w m) = equal v w && equal_items l m
  equal_items _ _ = false

-- String. Elements are parted by a space.
abbrev pub join : Bytes → RespList → Bytes → Bytes
join s nil rest = s
join s (cons v l) rest = s ++ b' ' ∷ rest

unfoldable mutual
  pub string : RespValue → Bytes
  string (resp_value simple_string i x a) = bytes_of x
  string (resp_value error i x a) = bytes_of x
  string (resp_value bulk_string i x a) = bytes_of x
  string (resp_value integer i x a) = format_int i
  string (resp_value array i x a) = string_array a
  string (resp_value (other b) i x a) = []

  pub string_array : RespArray → Bytes
  string_array slice_nil = []
  string_array (slice_of l) = string_items l

  pub string_items : RespList → Bytes
  string_items nil = []
  string_items (cons v l) = join (string v) l (string_items l)

same_int : (i j : ℤ) → equal_ℤ i j ≡ true → i ≡ j
same_int (pos a) (pos b) h = ap pos (ground arith)
same_int (negsuc a) (negsuc b) h = ap negsuc (ground arith)
same_int (pos a) (negsuc b) h = cc
same_int (negsuc a) (pos b) h = cc

join_cong :
    (l m : RespList) (s t r q : Bytes)
    → equal_items l m ≡ true
    → s ≡ t
    → r ≡ q
    → join s l r ≡ join t m q
unfolding equal_items
join_cong nil nil s t r q h e f = e
join_cong (cons v l) (cons w m) s t r q h e f = ap₂ (λ (a b : Bytes). a ++ b' ' ∷ b) e f
join_cong nil (cons w m) s t r q h e f = cc
join_cong (cons v l) nil s t r q h e f = cc

both : (a b : Bool) → a && b ≡ true → (a ≡ true) × (b ≡ true)
both a b h = (ground arith, ground arith)

mutual
  unfolding equal string

  agree : (a b : RespValue) → equal a b ≡ true → string a ≡ string b
  agree (resp_value integer i x a) (resp_value integer j y b) h = ap format_int (same_int i j h)
  agree (resp_value array i x a) (resp_value array j y b) h = agree_array a b h
  agree (resp_value simple_string i x a) (resp_value simple_string j y b) h =
      bytes_equal→eq (bytes_of x) (bytes_of y) h
  agree (resp_value error i x a) (resp_value error j y b) h =
      bytes_equal→eq (bytes_of x) (bytes_of y) h
  agree (resp_value bulk_string i x a) (resp_value bulk_string j y b) h =
      bytes_equal→eq (bytes_of x) (bytes_of y) h
  agree (resp_value (other s) i x a) (resp_value (other t) j y b) h = refl
  agree _ _ h = cc

  agree_array : (a b : RespArray) → equal_array a b ≡ true → string_array a ≡ string_array b
  agree_array slice_nil slice_nil h = refl
  agree_array slice_nil (slice_of nil) h = refl
  agree_array slice_nil (slice_of (cons w m)) h = cc
  agree_array (slice_of nil) slice_nil h = refl
  agree_array (slice_of (cons v l)) slice_nil h = cc
  agree_array (slice_of nil) (slice_of m) h = agree_items nil m h
  agree_array (slice_of (cons v l)) (slice_of m) h = agree_items (cons v l) m h

  agree_items : (l m : RespList) → equal_items l m ≡ true → string_items l ≡ string_items m
  agree_items nil nil h = refl
  agree_items (cons v l) (cons w m) h =
      let (p, q) = both (equal v w) (equal_items l m) h in
      join_cong l m (string v) (string w) (string_items l) (string_items m) q (agree v w p)
        (agree_items l m q)
  agree_items nil (cons w m) h = cc
  agree_items (cons v l) nil h = cc

-- Values that Equal takes for the same print the same.
pub equal→string : (a b : RespValue) → equal a b ≡ true → string a ≡ string b
equal→string a b h = agree a b h
