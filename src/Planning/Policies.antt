-- ===== src/Planning/Policies.antt =====
-- src/coreai/router.py: the providers a policy allows, in its order (`_plan_with_policy`,
-- `_apply_policy_models`), and the models they are asked for (`_policy_models`). The trace that
-- `_plan_with_policy` writes for `explain` is left out.
mod Kept
pub mod Served
pub mod Named
use core_ai_protocol_suite.Prelude.{
  ℕ, suc, ◌+◌, ◌%◌, String, String-discrete, Bool, true, false, not, ◌&&◌, ◌||◌, Option, none, some,
  is_some, List, [], ◌∷◌, ◌++◌, leb, length, take, drop, keep, sort_by, same, contains, without,
}
use core_ai_protocol_suite.Dict
use core_ai_protocol_suite.Policy.{Strategy, Policy, given, permits, Reason, not_in_chain}
use core_ai_protocol_suite.Policy
use core_ai_protocol_suite.Planning.{
  CompletionRequest, Provider, ModelProfile, Planner, PlanError, all_open, unknown_policy,
  none_permitted, Planned, planned, refused, names_of, is_local, usable, profile,
}
use core_ai_protocol_suite.Planning.Select.{p50_latency, or_number, balanced_score}
use core_ai_protocol_suite.Planning.Ranking.{rank_for_policy, turn_of}
use core_ai_protocol_suite.Planning.Owners.{owner_of}

-- `a == b`, where a missing name is no provider's.
unfoldable pub is_name : String → Option String → Bool
is_name n none = false
is_name n (some m) = same n m

-- The strategies that follow the chain only: `fallback` with a chain, and `explicit`.
chained_by : Strategy → List String → Bool
chained_by Policy.explicit chain = true
chained_by Policy.fallback [] = false
chained_by Policy.fallback (_ ∷ _) = true
chained_by Policy.balanced chain = false
chained_by Policy.cheapest chain = false
chained_by Policy.fastest chain = false
chained_by Policy.round_robin chain = false

chained : Policy → Bool
unfolding chained_by
chained policy = chained_by policy.strategy policy.fallback_chain

-- Why the policy leaves a provider out.
unfoldable pub reason : Policy → String → Option Reason
unfolding chained
reason policy n = elim (permits policy n) [
  | some why ↦ some why
  | none ↦
      elim (chained policy
        && (not (is_name n policy.provider) && not (contains n policy.fallback_chain))) [
          | true ↦ some not_in_chain
          | false ↦ none
        ]
]

unfoldable pub allowed : Policy → String → Bool
allowed policy n = not (is_some (reason policy n))

unfoldable pub eligible : Planner → Policy → List String
eligible p policy = keep (λ n. allowed policy n && usable p n) (names_of p.providers)

blocked : Planner → Policy → List String
blocked p policy = keep (λ n. allowed policy n && not (usable p n)) (names_of p.providers)

-- An explicit policy's provider, if it is eligible, before the others.
pin_first : Option String → List String → List String → List String
pin_first none ns ranked = ranked
pin_first (some pinned) ns ranked = elim (contains pinned ns) [
  | true ↦ pinned ∷ without pinned ranked
  | false ↦ ranked
]

pin_by : Strategy → Option String → List String → List String → List String
unfolding pin_first
pin_by Policy.explicit pinned ns ranked = pin_first pinned ns ranked
pin_by _ pinned ns ranked = ranked

pin : Policy → List String → List String → List String
unfolding pin_by
pin policy ns ranked = pin_by policy.strategy policy.provider ns ranked

-- The first of the ranking and then the chain, where the policy has one.
along : List String → List String → List String → List String
along [] ns ranked = ranked
along (c ∷ chain) ns ranked =
    let head = take 1 ranked in
    head ++ keep (λ n. contains n ns && not (contains n head)) (c ∷ chain)

follow_by : Strategy → List String → List String → List String → List String
unfolding along
follow_by Policy.fallback chain ns ranked = ranked
follow_by _ chain ns ranked = along chain ns ranked

follow : Policy → List String → List String → List String
unfolding follow_by
follow policy ns ranked = follow_by policy.strategy policy.fallback_chain ns ranked

free_by : Strategy → Bool
free_by Policy.explicit = false
free_by Policy.fallback = false
free_by _ = true

free : Policy → Bool
unfolding free_by
free policy = free_by policy.strategy

-- The owner of a model that the policy names, if it is eligible.
if_eligible : Option String → List String → Option String
if_eligible none ns = none
if_eligible (some o) ns = elim (contains o ns) [ true ↦ some o | false ↦ none ]

eligible_owner : Planner → Option String → List String → Option String
unfolding if_eligible
eligible_owner p model ns = if_eligible (owner_of p model) ns

owner_first : Option String → List String → List String
owner_first none order = order
owner_first (some o) order = o ∷ without o order

owner_second : Bool → Option String → List String → List String
owner_second f o [] = []
owner_second f none (n ∷ ns) = n ∷ ns
owner_second f (some o) (n ∷ ns) = elim (same o n || f) [
  | true ↦ n ∷ o ∷ without o ns
  | false ↦ n ∷ ns
]

model_first : Bool → Option String → List String → List String
unfolding owner_first
model_first true o order = owner_first o order
model_first false o order = order

fallback_second : Bool → Bool → Option String → List String → List String
unfolding owner_second
fallback_second true f o order = owner_second f o order
fallback_second false f o order = order

-- _apply_policy_models
unfoldable pub apply_policy_models : Planner → Policy → List String → List String → List String
unfolding free eligible_owner model_first fallback_second
apply_policy_models p policy order ns =
    fallback_second (is_some (given policy.fallback_model) && p.enable_failover) (free policy)
      (eligible_owner p policy.fallback_model ns)
      (model_first (free policy && is_some (given policy.model)) (eligible_owner p policy.model ns)
        order)

cut : Planner → Option String → List String → List String
cut p model order = elim (is_some model || not p.enable_failover) [
  | true ↦ take 1 order
  | false ↦ order
]

with_models : Planner → Policy → Option String → List String → List String → List String
with_models p policy none order ns = apply_policy_models p policy order ns
with_models p policy (some _) order ns = order

unfoldable pub order_with_policy : Planner → CompletionRequest → Policy → List String → List String
unfolding cut with_models follow pin
order_with_policy p r policy ns = cut p r.model (
    with_models p policy r.model (follow policy ns (pin policy ns (rank_for_policy p r policy ns)))
      ns)

advanced_by : Strategy → Policy → Planner → Planner
unfolding turn_of
advanced_by Policy.round_robin policy p = record p {
  policy_rr = Dict.put String-discrete policy.name (suc (turn_of p policy)) p.policy_rr;
}
advanced_by _ policy p = p

advanced : Bool → Policy → Planner → Planner
unfolding advanced_by
advanced false policy p = p
advanced true policy p = advanced_by policy.strategy policy p

plan_eligible :
    Planner
    → CompletionRequest
    → Policy
    → Bool
    → List String
    → List String
    → Planner × Planned (List String)
unfolding advanced
plan_eligible p r policy advance [] [] = (p, refused (none_permitted policy.name))
plan_eligible p r policy advance (b ∷ bs) [] = (p, refused (all_open (b ∷ bs)))
plan_eligible p r policy advance bs (n ∷ ns) =
    (advanced advance policy p, planned (order_with_policy p r policy (n ∷ ns)))

-- _plan_with_policy
unfoldable pub plan_with_policy :
    Planner → CompletionRequest → Policy → Bool → Planner × Planned (List String)
unfolding plan_eligible blocked
plan_with_policy p r policy advance =
    plan_eligible p r policy advance (blocked p policy) (eligible p policy)

model_for : Planner → Option String → String → Option String
model_for p wanted n = elim (given wanted) [
  | none ↦ none
  | some m ↦ elim (owner_of p wanted) [
    | none ↦ some m
    | some o ↦ elim (same o n) [ true ↦ some m | false ↦ none ]
  ]
]

later_models : Planner → Policy → List String → List (String × Option String)
unfolding model_for
later_models p policy [] = []
later_models p policy (n ∷ ns) = (n, model_for p policy.fallback_model n) ∷ later_models p policy ns

-- _policy_models, with the providers they belong to.
unfoldable pub policy_models : Planner → Policy → List String → List (String × Option String)
unfolding later_models model_for
policy_models p policy [] = []
policy_models p policy (n ∷ ns) = (n, model_for p policy.model n) ∷ later_models p policy ns
