-- ===== src/Planning/Policies/Named.antt =====
-- The order and the models of a policy (coreai/router.py, `_plan_with_policy`, `_policy_models`).
use core_ai_protocol_suite.Prelude.{String, true, false, ◌≡◌, refl, ap, List, [], ◌∷◌}
use core_ai_protocol_suite.Policy.{Policy}
use core_ai_protocol_suite.Planning.{CompletionRequest, Planner, names_of}
use core_ai_protocol_suite.Planning.Policies.{
  plan_eligible, plan_with_policy, eligible, blocked, policy_models, later_models,
}

names-later_models :
    (p : Planner) (policy : Policy) (ns : List String) → names_of (later_models p policy ns) ≡ ns
unfolding later_models
names-later_models p policy [] = refl
names-later_models p policy (n ∷ ns) =
    ap (λ (l : List String). n ∷ l) (names-later_models p policy ns)

pub names-policy_models :
    (p : Planner) (policy : Policy) (ns : List String) → names_of (policy_models p policy ns) ≡ ns
unfolding policy_models
names-policy_models p policy [] = refl
names-policy_models p policy (n ∷ ns) =
    ap (λ (l : List String). n ∷ l) (names-later_models p policy ns)

-- The counter of a rotation does not matter to the order that it is advanced after.
plan_eligible_advance :
    (p : Planner) (r : CompletionRequest) (policy : Policy) (bs ns : List String)
    → (plan_eligible p r policy false bs ns).1 ≡ (plan_eligible p r policy true bs ns).1
unfolding plan_eligible
plan_eligible_advance p r policy [] [] = refl
plan_eligible_advance p r policy (b ∷ bs) [] = refl
plan_eligible_advance p r policy [] (n ∷ ns) = refl
plan_eligible_advance p r policy (b ∷ bs) (n ∷ ns) = refl

pub plan_with_policy_advance :
    (p : Planner) (r : CompletionRequest) (policy : Policy)
    → (plan_with_policy p r policy false).1 ≡ (plan_with_policy p r policy true).1
unfolding plan_with_policy
plan_with_policy_advance p r policy =
    plan_eligible_advance p r policy (blocked p policy) (eligible p policy)
