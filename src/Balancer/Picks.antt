-- ===== src/Balancer/Picks.antt =====
-- Which hosts the balancers pick.
use native.Mathlib.Nat.{mod-add-mod, add-mod-mod, add-mod_right, mod-eq_of_lt}
use samaritan.Prelude.{
  ℕ, zero, suc, ◌+◌, ◌-◌, ◌*◌, ◌⊎◌, ◌%◌, ◌^◌, ◌<◌, ◌≤◌, ◌≡◌, refl, sym, ap, ◌∙◌, inl, inr,
  Bool-cases, Option, some, List, [], ◌∷◌, length, get_elem?, ltb, arith,
}
use samaritan.Balancer.Defs.{pick_round_robin, pick_least_conn, index_after}

wrap : (a j n : ℕ) → j < n → (a + (j + n - a % n) % n) % n ≡ j
wrap a j n h =
    add-mod-mod a (j + n - a % n) n
    ∙ sym (mod-add-mod a n (j + n - a % n))
    ∙ ap (λ t. t % n) whole
    ∙ add-mod_right j n
    ∙ mod-eq_of_lt h
  where
    whole : a % n + (j + n - a % n) ≡ j + n
    whole = omega arith

module _ {ℓ} {A : Type ℓ} where
  get_elem?-lt : (xs : List A) (i : ℕ) → i < length xs → (a : A) × (get_elem? xs i ≡ some a)
  get_elem?-lt [] i h = absurd (omega arith)
  get_elem?-lt (x ∷ xs) zero h = (x, refl)
  get_elem?-lt (x ∷ xs) (suc i) h = get_elem?-lt xs i (omega arith)

  pick_lem :
      (index : ℕ) (hosts : List A)
      → 0 < length hosts
      → index + 1 < 2 ^ 64
      → pick_round_robin index hosts ≡ (get_elem? hosts ((index + 1) % length hosts), index + 1)
  unfolding pick_round_robin
  pick_lem index hosts h lt =
      let same : (index + 1) % 2 ^ 64 ≡ index + 1 = omega arith in rw same (ground arith)

  index_after_lem :
      (n index : ℕ) (hosts : List A)
      → 0 < length hosts
      → index + n < 2 ^ 64
      → index_after n index hosts ≡ index + n
  unfolding index_after
  index_after_lem zero index hosts h lt = omega arith
  index_after_lem (suc n) index hosts h lt =
      rw (pick_lem index hosts h (omega arith))
        (index_after_lem n (index + 1) hosts h (omega arith) ∙ omega arith)

  -- Round robin. From any index that does not wrap, among the next n picks from n hosts there is one
  -- for every host, and n picks later the host that is picked now is picked again.
  pub round_robin_fair :
      (index j : ℕ) (hosts : List A)
      → j < length hosts
      → index + 2 * length hosts < 2 ^ 64
      → let pick = λ (i : ℕ). (pick_round_robin (index_after i index hosts) hosts).0 in
        (i : ℕ) × (i < length hosts)
        × (pick i ≡ get_elem? hosts j)
        × (pick (i + length hosts) ≡ pick i)
  round_robin_fair index j hosts h lt =
      let n = length hosts in
      let i = (j + n - (index + 1) % n) % n in
      let small : i < n = omega arith in
      let now = nth i (omega arith) in
      let here : (index + i + 1) % n ≡ j = ap (λ t. t % n) (shift i) ∙ wrap (index + 1) j n h in
      let again = nth (i + n) (omega arith) in
      let there : (index + (i + n) + 1) % n ≡ (index + i + 1) % n =
        ap (λ t. t % n) (shift_round i n) ∙ add-mod_right (index + i + 1) n in
      (i, small, now ∙ ap (get_elem? hosts) here, again ∙ ap (get_elem? hosts) there ∙ sym now)
    where
      nth :
          (i : ℕ)
          → index + i + 1 < 2 ^ 64
          → (pick_round_robin (index_after i index hosts) hosts).0
            ≡ get_elem? hosts ((index + i + 1) % length hosts)
      nth i k =
          ap (λ x. (pick_round_robin x hosts).0)
            (index_after_lem i index hosts (omega arith) (omega arith))
          ∙ ap (λ (r : Option A × ℕ). r.0) (pick_lem (index + i) hosts (omega arith) k)

      shift : (i : ℕ) → index + i + 1 ≡ index + 1 + i
      shift i = omega arith

      shift_round : (i n : ℕ) → index + (i + n) + 1 ≡ index + i + 1 + n
      shift_round i n = omega arith

  -- The balancer of least connections picks one of the two hosts that the random numbers choose,
  -- and neither of the two has fewer connections.
  pub least_conn_best :
      (conn_count : A → ℕ) (r₁ r₂ : ℕ) (hosts : List A)
      → 0 < length hosts
      → (h h₁ h₂ : A) × (pick_least_conn conn_count r₁ r₂ hosts ≡ some h)
        × (get_elem? hosts (r₁ % length hosts) ≡ some h₁)
        × (get_elem? hosts (r₂ % length hosts) ≡ some h₂)
        × ((h ≡ h₁) ⊎ (h ≡ h₂))
        × (conn_count h ≤ conn_count h₁)
        × (conn_count h ≤ conn_count h₂)
  unfolding pick_least_conn
  least_conn_best conn_count r₁ r₂ hosts lt =
      let (h₁, e₁) = get_elem?-lt hosts (r₁ % length hosts) (omega arith) in
      let (h₂, e₂) = get_elem?-lt hosts (r₂ % length hosts) (omega arith) in
      elim (Bool-cases (ltb (conn_count h₁) (conn_count h₂))) [
        | inl e ↦ (h₁, h₁, h₂, ground (arith, e₁, e₂), e₁, e₂, inl refl, omega arith, ground arith)
        | inr e ↦ (h₂, h₁, h₂, ground (arith, e₁, e₂), e₁, e₂, inr refl, ground arith, omega arith)
      ]
