-- ===== src/Prelude/Assoc.antt =====
-- A Go map with string keys, as an association list with one entry for each key.
use samaritan.Prelude.Tests.{if◌then◌else◌, Bool-cases}
use samaritan.Prelude.Octets.{Bytes, bytes_equal, bytes_equal→eq, bytes_equal_refl}
use mathlib.Core.Path.{◌≡◌, refl}
use mathlib.Core.Logic.{inl, inr}
use mathlib.Core.Option.{Option, none, some}
use mathlib.Core.List.{List, [], ◌∷◌}
use samaritan.Prelude.Lists.{length}
use Prim.Native.Nat.{◌+◌, ◌≤◌, ◌<◌}
use native.Mathlib.Omega.{arith}

module _ {ℓ} {V : Type ℓ} where
  unfoldable pub lookup : Bytes → List (Bytes × V) → Option V
  lookup k [] = none
  lookup k ((j, v) ∷ m) = if bytes_equal j k then some v else lookup k m

  unfoldable pub insert : Bytes → V → List (Bytes × V) → List (Bytes × V)
  insert k v [] = (k, v) ∷ []
  insert k v ((j, w) ∷ m) = if bytes_equal j k then (k, v) ∷ m else (j, w) ∷ insert k v m

  unfoldable pub delete : Bytes → List (Bytes × V) → List (Bytes × V)
  delete k [] = []
  delete k ((j, w) ∷ m) = let rest = delete k m in if bytes_equal j k then rest else (j, w) ∷ rest

  unfoldable pub keys : List (Bytes × V) → List Bytes
  keys [] = []
  keys ((j, w) ∷ m) = j ∷ keys m

  pub lookup-insert :
      (k j : Bytes) (v : V) (m : List (Bytes × V))
      → lookup j (insert k v m) ≡ (if bytes_equal k j then some v else lookup j m)
  unfolding lookup insert
  lookup-insert k j v [] = refl
  lookup-insert k j v ((i, w) ∷ m) = elim (Bool-cases (bytes_equal i k)) [
    | inl e ↦ rw (e, bytes_equal→eq i k e) (ground arith)
    | inr e ↦ rw e (
        ground (
          arith,
          bytes_equal→eq i j,
          bytes_equal→eq k j,
          bytes_equal_refl k,
          lookup-insert k j v m,
        ))
  ]

  pub lookup-delete :
      (k j : Bytes) (m : List (Bytes × V))
      → lookup j (delete k m) ≡ (if bytes_equal k j then none else lookup j m)
  unfolding lookup delete
  lookup-delete k j [] = ground arith
  lookup-delete k j ((i, w) ∷ m) = elim (Bool-cases (bytes_equal i k)) [
    | inl e ↦ rw (e, bytes_equal→eq i k e) (ground (arith, lookup-delete k j m))
    | inr e ↦ rw e (
        ground
          (arith, bytes_equal→eq i j, bytes_equal→eq k j, bytes_equal_refl k, lookup-delete k j m))
  ]

  pub length-insert :
      (k : Bytes) (v : V) (m : List (Bytes × V)) → length (insert k v m) ≤ length m + 1
  unfolding insert
  length-insert k v [] = omega arith
  length-insert k v ((j, w) ∷ m) = ground (arith, length-insert k v m)

  pub length-insert_known :
      (k : Bytes) (v w : V) (m : List (Bytes × V))
      → lookup k m ≡ some w
      → length (insert k v m) ≡ length m
  unfolding insert lookup
  length-insert_known k v w [] h = cc
  length-insert_known k v w ((j, x) ∷ m) h = ground (arith, length-insert_known k v w m)

  pub length-delete : (k : Bytes) (m : List (Bytes × V)) → length (delete k m) ≤ length m
  unfolding delete
  length-delete k [] = omega arith
  length-delete k ((j, w) ∷ m) = ground (arith, length-delete k m)

  pub length-delete_known :
      (k : Bytes) (v : V) (m : List (Bytes × V))
      → lookup k m ≡ some v
      → length (delete k m) < length m
  unfolding delete lookup
  length-delete_known k v [] h = cc
  length-delete_known k v ((j, w) ∷ m) h =
      ground (arith, length-delete k m, length-delete_known k v m)
