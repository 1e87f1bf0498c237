-- ===== src/Planning/Policies/Served.antt =====
-- The providers in the order of a policy (coreai/router.py, `_plan_with_policy`).
use mathlib.Core.Bool.{false≢true}
use core_ai_protocol_suite.Prelude.{
  All-map, String, Bool, true, ◌&&◌, ◌≡◌, refl, sym, ◌∙◌, none, List, [], ◌∷◌, keep-All, All,
  Bool-cases, Option-cases, inl, inr,
}
use core_ai_protocol_suite.Policy.{Policy, permits}
use core_ai_protocol_suite.Planning.{
  CompletionRequest, Planner, Planned, planned, refused, names_of, usable,
}
use core_ai_protocol_suite.Planning.Policies.{
  reason, allowed, eligible, blocked, plan_eligible, plan_with_policy, policy_models, later_models,
}
use core_ai_protocol_suite.Planning.Policies.Kept.{order_with_policy-All}

-- What is planned, if anything is, has the property.
abbrev pub Holds : {A : Type 0} → (A → Type 0) → Planned A → Type 0
Holds P (planned a) = P a
Holds P (refused e) = Unit

-- The policy permits the provider, and its breaker would admit a call.
abbrev pub Serves : Planner → Policy → String → Type 0
Serves p policy n = (permits policy n ≡ none) × (usable p n ≡ true)

allowed-permits : (policy : Policy) (n : String) → allowed policy n ≡ true → permits policy n ≡ none
unfolding allowed reason
allowed-permits policy n h = elim (Option-cases (permits policy n)) [
  | inl k ↦ k
  | inr (why, k) ↦ absurd (false≢true (sym (rw (k, allowed, reason) refl) ∙ h))
]

eligible-Serves : (p : Planner) (policy : Policy) → All (Serves p policy) (eligible p policy)
unfolding eligible
eligible-Serves p policy =
    All-map (λ n. (allowed policy n && usable p n) ≡ true) (Serves p policy)
      (λ n h. elim (Bool-cases (allowed policy n)) [
        | inl k ↦ (allowed-permits policy n k, sym (rw k refl) ∙ h)
        | inr k ↦ absurd (false≢true (sym (rw k refl) ∙ h))
      ])
      (eligible p policy) (keep-All (λ n. allowed policy n && usable p n) (names_of p.providers))

plan_eligible-Holds :
    (P : String → Type 0) (p : Planner) (r : CompletionRequest) (policy : Policy) (advance : Bool)
    (bs ns : List String)
    → All P ns
    → Holds (All P) (plan_eligible p r policy advance bs ns).1
unfolding plan_eligible
plan_eligible-Holds P p r policy advance [] [] u = tt
plan_eligible-Holds P p r policy advance (b ∷ bs) [] u = tt
plan_eligible-Holds P p r policy advance [] (n ∷ ns) u =
    order_with_policy-All P p r policy (n ∷ ns) u
plan_eligible-Holds P p r policy advance (b ∷ bs) (n ∷ ns) u =
    order_with_policy-All P p r policy (n ∷ ns) u

pub plan_with_policy-Serves :
    (p : Planner) (r : CompletionRequest) (policy : Policy) (advance : Bool)
    → Holds (All (Serves p policy)) (plan_with_policy p r policy advance).1
unfolding plan_with_policy
plan_with_policy-Serves p r policy advance =
    plan_eligible-Holds (Serves p policy) p r policy advance (blocked p policy) (eligible p policy)
      (eligible-Serves p policy)

later_models-All :
    (P : String → Type 0) (p : Planner) (policy : Policy) (ns : List String)
    → All P ns
    → All (λ x. P x.0) (later_models p policy ns)
unfolding later_models
later_models-All P p policy [] u = tt
later_models-All P p policy (n ∷ ns) u = (u.0, later_models-All P p policy ns u.1)

pub policy_models-All :
    (P : String → Type 0) (p : Planner) (policy : Policy) (ns : List String)
    → All P ns
    → All (λ x. P x.0) (policy_models p policy ns)
unfolding policy_models
policy_models-All P p policy [] u = tt
policy_models-All P p policy (n ∷ ns) u = (u.0, later_models-All P p policy ns u.1)
