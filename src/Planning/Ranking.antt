-- ===== src/Planning/Ranking.antt =====
-- src/coreai/router.py: the order of the eligible providers under a policy (`_rank_for_policy`).
use core_ai_protocol_suite.Prelude.{
  ℕ, ◌%◌, String, String-discrete, not, Option, none, some, List, [], ◌∷◌, ◌++◌, leb, length, take,
  drop, keep, sort_by, contains,
}
use core_ai_protocol_suite.Dict
use core_ai_protocol_suite.Policy.{Strategy, Policy, given, permits, Reason, not_in_chain}
use core_ai_protocol_suite.Policy
use core_ai_protocol_suite.Planning.{CompletionRequest, Planner}
use core_ai_protocol_suite.Planning.Select.{p50_latency, or_number, balanced_score}

-- Those within the latency ceiling first.
unfoldable pub under_ceiling : Planner → Option ℕ → List String → List String
under_ceiling p none ordered = ordered
under_ceiling p (some ceiling) ordered =
    let within = λ (n : String). leb (or_number (p50_latency p n) 0) ceiling in
    keep within ordered ++ keep (λ n. not (within n)) ordered

weights_by : Strategy → Policy → ℕ × ℕ
weights_by Policy.cheapest policy = (1000, 0)
weights_by _ policy = (policy.cost_weight, policy.latency_weight)

weights_of : Policy → ℕ × ℕ
unfolding weights_by
weights_of policy = weights_by policy.strategy policy

unfoldable pub turn_of : Planner → Policy → ℕ
turn_of p policy = elim (Dict.get String-discrete policy.name p.policy_rr) [ none ↦ 0 | some k ↦ k ]

unfoldable pub rotate_by : ℕ → List String → List String
rotate_by k ns = drop k ns ++ take k ns

unfoldable pub by_score : Planner → CompletionRequest → Policy → List String → List String
unfolding weights_of under_ceiling
by_score p r policy ns =
    under_ceiling p policy.latency_ceiling_ms
      (sort_by (balanced_score p r (weights_of policy) ns) ns)

-- `% len(eligible)`: nothing to rotate where the list is empty.
unfoldable pub rotation : ℕ → List String → List String
unfolding rotate_by
rotation k [] = []
rotation k (n ∷ ns) = rotate_by (k % length (n ∷ ns)) (n ∷ ns)

unfoldable pub rank_by : Strategy → Planner → CompletionRequest → Policy → List String → List String
unfolding by_score under_ceiling turn_of rotation
rank_by Policy.fallback p r policy ns = keep (λ n. contains n ns) policy.fallback_chain
rank_by Policy.round_robin p r policy ns = rotation (turn_of p policy) ns
rank_by Policy.fastest p r policy ns =
    under_ceiling p policy.latency_ceiling_ms (sort_by (λ n. or_number (p50_latency p n) 500) ns)
rank_by Policy.balanced p r policy ns = by_score p r policy ns
rank_by Policy.cheapest p r policy ns = by_score p r policy ns
rank_by Policy.explicit p r policy ns = by_score p r policy ns

-- _rank_for_policy
unfoldable pub rank_for_policy : Planner → CompletionRequest → Policy → List String → List String
unfolding rank_by
rank_for_policy p r policy ns = rank_by policy.strategy p r policy ns
