-- ===== src/Balancer/Defs.antt =====
-- The balancers of proc/internal/lb/lb.go over hosts of any type.
use samaritan.Prelude.{
  ℕ, zero, suc, ◌+◌, ◌%◌, ◌^◌, Option, none, some, List, length, get_elem?, ltb, ◌==◌,
  if◌then◌else◌,
}

pub data Policy : Type 0 where
  round_robin least_connection random : Policy
  unknown : ℕ → Policy

pub data Balancer : Type 0 where
  round_robin_balancer : ℕ → Balancer
  random_balancer least_conn_balancer : Balancer

unfoldable pub new : Policy → Balancer
new least_connection = least_conn_balancer
new random = random_balancer
new _ = round_robin_balancer 0

module _ {ℓ} {A : Type ℓ} where
  -- PickHost of the round-robin balancer: the index is a uint64 that is moved first.
  unfoldable pub pick_round_robin : ℕ → List A → Option A × ℕ
  pick_round_robin index hosts =
      let next = (index + 1) % 2 ^ 64 in
      if length hosts == 0 then (none, index) else (get_elem? hosts (next % length hosts), next)

  unfoldable pub pick_random : ℕ → List A → Option A
  pick_random r hosts = if length hosts == 0 then none else get_elem? hosts (r % length hosts)

  -- Two random hosts, by the number of their connections. The hosts of both numbers are there.
  unfoldable pub pick_least_conn : (A → ℕ) → ℕ → ℕ → List A → Option A
  pick_least_conn conn_count r₁ r₂ hosts =
      if length hosts == 0 then none else elim (get_elem? hosts (r₁ % length hosts)) [
        | none ↦ none
        | some h₁ ↦ elim (get_elem? hosts (r₂ % length hosts)) [
          | none ↦ none
          | some h₂ ↦ some (if ltb (conn_count h₁) (conn_count h₂) then h₁ else h₂)
        ]
      ]

  -- The index after n picks.
  unfoldable pub index_after : ℕ → ℕ → List A → ℕ
  index_after zero index hosts = index
  index_after (suc n) index hosts = index_after n ((pick_round_robin index hosts).1) hosts
