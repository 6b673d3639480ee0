-- ===== src/Balancer/Tests.antt =====
-- Three hosts with their numbers of connections, and the theorems of the balancers at them.
use samaritan.Prelude.{
  ℕ, ◌+◌, ◌%◌, ◌≤◌, ◌<◌, ◌≡◌, ◌⊎◌, Option, some, List, [], ◌∷◌, get_elem?, arith,
}
use samaritan.Balancer.Defs.{pick_round_robin, pick_least_conn, index_after}
use samaritan.Balancer.Picks.{round_robin_fair, least_conn_best}

-- The hosts, each by its number of connections.
abbrev three_hosts : List ℕ
three_hosts = 7 ∷ 4 ∷ 9 ∷ []

abbrev pick : ℕ → Option ℕ
pick i = (pick_round_robin (index_after i 5 three_hosts) three_hosts).0

round_robin_fair_example : (i : ℕ) × (i < 3) × (pick i ≡ some 9) × (pick (i + 3) ≡ pick i)
round_robin_fair_example = round_robin_fair 5 2 three_hosts (omega arith) (omega arith)

least_conn_best_example :
    (h h₁ h₂ : ℕ) × (pick_least_conn (λ n. n) 10 6 three_hosts ≡ some h)
    × (get_elem? three_hosts (10 % 3) ≡ some h₁)
    × (get_elem? three_hosts (6 % 3) ≡ some h₂)
    × ((h ≡ h₁) ⊎ (h ≡ h₂))
    × (h ≤ h₁)
    × (h ≤ h₂)
least_conn_best_example = least_conn_best (λ n. n) 10 6 three_hosts (omega arith)
