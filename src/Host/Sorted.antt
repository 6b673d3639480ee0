-- ===== src/Host/Sorted.antt =====
-- sort.Strings as insertion into a sorted list.
use mathlib.Core.List.{Perm}
use mathlib.Core.List.Perm
use samaritan.Prelude.{
  ◌≡◌, refl, inl, inr, true, false, Bool-cases, List, [], ◌∷◌, Bytes, All, All-weaken, arith,
}
use samaritan.Host.Defs.{bytes_leb, insert_sorted, sort_strings}

bytes_leb_total : (xs ys : Bytes) → bytes_leb xs ys ≡ false → bytes_leb ys xs ≡ true
unfolding bytes_leb
bytes_leb_total [] ys h = cc
bytes_leb_total (x ∷ xs) [] h = refl
bytes_leb_total (x ∷ xs) (y ∷ ys) h = ground (arith, h, bytes_leb_total xs ys)

bytes_leb_trans :
    (xs ys zs : Bytes) → bytes_leb xs ys ≡ true → bytes_leb ys zs ≡ true → bytes_leb xs zs ≡ true
unfolding bytes_leb
bytes_leb_trans [] ys zs h k = refl
bytes_leb_trans (x ∷ xs) [] zs h k = cc
bytes_leb_trans (x ∷ xs) (y ∷ ys) [] h k = cc
bytes_leb_trans (x ∷ xs) (y ∷ ys) (z ∷ zs) h k = ground (arith, h, k, bytes_leb_trans xs ys zs)

-- No text sorts before an earlier one.
abbrev pub Ascending : List Bytes → Type 0
Ascending [] = Unit
Ascending (x ∷ xs) = All (λ y. bytes_leb x y ≡ true) xs × Ascending xs

pub All-insert_sorted {ℓ} :
    (P : Bytes → Type ℓ) (x : Bytes) (ys : List Bytes) → P x → All P ys → All P (insert_sorted x ys)
unfolding insert_sorted
All-insert_sorted P x [] h all = (h, tt)
All-insert_sorted P x (y ∷ ys) h all = elim (Bool-cases (bytes_leb x y)) [
  | inl e ↦ rw e (h, all)
  | inr e ↦ rw e (all.0, All-insert_sorted P x ys h all.1)
]

insert_sorted-Ascending :
    (x : Bytes) (ys : List Bytes) → Ascending ys → Ascending (insert_sorted x ys)
unfolding insert_sorted
insert_sorted-Ascending x [] a = (tt, tt)
insert_sorted-Ascending x (y ∷ ys) a = elim (Bool-cases (bytes_leb x y)) [
  | inl e ↦ rw e ((e, All-weaken _ _ ys (λ z h. bytes_leb_trans x y z e h) a.0), a)
  | inr e ↦
      rw e (All-insert_sorted _ x ys (bytes_leb_total x y e) a.0, insert_sorted-Ascending x ys a.1)
]

insert_sorted-perm : (x : Bytes) (ys : List Bytes) → Perm (insert_sorted x ys) (x ∷ ys)
unfolding insert_sorted
insert_sorted-perm x [] = Perm.refl (x ∷ [])
insert_sorted-perm x (y ∷ ys) = elim (Bool-cases (bytes_leb x y)) [
  | inl e ↦ rw e (Perm.refl (x ∷ y ∷ ys))
  | inr e ↦ rw e (Perm.trans (Perm.cons y (insert_sorted-perm x ys)) (Perm.swap x y ys))
]

pub sort_strings-Ascending : (xs : List Bytes) → Ascending (sort_strings xs)
unfolding sort_strings
sort_strings-Ascending [] = tt
sort_strings-Ascending (x ∷ xs) =
    insert_sorted-Ascending x (sort_strings xs) (sort_strings-Ascending xs)

pub sort_strings-perm : (xs : List Bytes) → Perm (sort_strings xs) xs
unfolding sort_strings
sort_strings-perm [] = Perm.refl []
sort_strings-perm (x ∷ xs) =
    Perm.trans (insert_sorted-perm x (sort_strings xs)) (Perm.cons x (sort_strings-perm xs))

pub All-sort_strings {ℓ} :
    (P : Bytes → Type ℓ) (xs : List Bytes) → All P xs → All P (sort_strings xs)
unfolding sort_strings
All-sort_strings P [] all = tt
All-sort_strings P (x ∷ xs) all =
    All-insert_sorted P x (sort_strings xs) all.0 (All-sort_strings P xs all.1)
