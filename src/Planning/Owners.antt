-- ===== src/Planning/Owners.antt =====
-- src/coreai/router.py: the provider that owns a model (`_owner_of`) and the policy of a request
-- (`_policy_for`).
use core_ai_protocol_suite.Prelude.{
  String, Bool, ◌&&◌, Option, none, some, List, [], ◌∷◌, keep, contains,
}
use core_ai_protocol_suite.Policy.{Strategy, Policy, given, permits, Reason, not_in_chain}
use core_ai_protocol_suite.Policy
use core_ai_protocol_suite.Planning.{
  CompletionRequest, Provider, Planner, unknown_policy, Planned, planned, refused, profile,
}

first_name : {V : Type 0} → List (String × V) → Option String
first_name [] = none
first_name ((n, _) ∷ _) = some n

serves : String → String × Provider → Bool
serves m (n, q) = q.is_local && contains m q.models

-- _owner_of
unfoldable pub owner_of : Planner → Option String → Option String
unfolding serves first_name
owner_of p model = elim (given model) [
  | none ↦ none
  | some m ↦ elim (profile p m) [
    | some f ↦ some f.provider
    | none ↦ first_name (keep (serves m) p.providers)
  ]
]

name_or : Option String → Option String → Option String
name_or none other = other
name_or (some n) other = some n

-- _policy_for
unfoldable pub policy_for : Planner → CompletionRequest → Option String → Planned (Option Policy)
unfolding name_or
policy_for p r name = elim p.policies [
  | none ↦ planned none
  | some set ↦
      let wanted = name_or (given name) r.policy in
      elim (Policy.get wanted set) [
        | some policy ↦ planned (some policy)
        | none ↦ elim (given wanted) [ none ↦ planned none | some n ↦ refused (unknown_policy n) ]
      ]
]
