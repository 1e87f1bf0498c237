-- ===== src/Planning/Plan/Safety.antt =====
-- Where a plan may send a request (coreai/router.py, `_plan`, `_plan_any`, `_plan_with_policy`).
use mathlib.Core.Option.{none-ne-some}
use core_ai_protocol_suite.Prelude.{
  All-map, String, String-discrete, Bool, true, false, not, ◌≡◌, refl, sym, ◌∙◌, Option, none, some,
  List, [], ◌∷◌, keep-All, All, All-append, All-keep, Bool-cases, Option-cases, inl, inr, ◌⊎◌,
  length, ltb,
}
use core_ai_protocol_suite.Dict
use core_ai_protocol_suite.Policy.{Policy, permits, Reason}
use core_ai_protocol_suite.Planning.{
  CompletionRequest, Difficulty, Planner, Planned, planned, refused, is_local, usable,
}
use core_ai_protocol_suite.Planning.Policies.{plan_with_policy}
use core_ai_protocol_suite.Planning.Owners.{owner_of, policy_for}
use core_ai_protocol_suite.Planning.Policies.Served.{
  Serves, Holds, plan_with_policy-Serves, policy_models-All,
}
use core_ai_protocol_suite.Planning.Plan.{
  for_privacy, Plan, with_model, modelled, models_for, policy_plan, owned_if, owned_plan,
  permitted_by, by_policy, automatic, plan_any, wanted, apply_difficulty, local_only, only_private,
  reordered, tagged, plan,
}

abbrev pub On : (String → Type 0) → String × Option String → Type 0
On P x = P x.0

with_model-All :
    (P : String → Type 0) (m : Option String) (ns : List String)
    → All P ns
    → All (On P) (with_model m ns)
unfolding with_model
with_model-All P m [] u = tt
with_model-All P m (n ∷ ns) u = (u.0, with_model-All P m ns u.1)

modelled-All :
    (P : String → Type 0) (p : Planner) (policy : Policy) (m : Option String) (ns : List String)
    → All P ns
    → All (On P) (modelled p policy m ns)
unfolding modelled
modelled-All P p policy none ns u = policy_models-All P p policy ns u
modelled-All P p policy (some m) ns u = with_model-All P (some m) ns u

models_for-Holds :
    (P : String → Type 0) (p : Planner) (r : CompletionRequest) (policy : Policy)
    (o : Planned (List String))
    → Holds (All P) o
    → Holds (All (On P)) (models_for p r policy o)
unfolding models_for
models_for-Holds P p r policy (refused e) u = tt
models_for-Holds P p r policy (planned ns) u = modelled-All P p policy r.model ns u

permitted_by-permits :
    (policy : Policy) (o : String) → permitted_by (some policy) o ≡ none → permits policy o ≡ none
unfolding permitted_by
permitted_by-permits policy o h = elim (Option-cases (permits policy o)) [
  | inl k ↦ k
  | inr (why, k) ↦ absurd (none-ne-some (policy.name, why) (sym h ∙ rw (k, permitted_by) refl))
]

owned_if-Serves :
    (p : Planner) (policy : Policy) (model : Option String) (o : String) (here : Bool)
    (why : Option (String × Reason)) (up : Bool)
    → permitted_by (some policy) o ≡ why
    → usable p o ≡ up
    → Holds (All (On (Serves p policy))) (owned_if here why up model o)
unfolding owned_if
owned_if-Serves p policy model o false why up e f = tt
owned_if-Serves p policy model o true (some (name, why)) up e f = tt
owned_if-Serves p policy model o true none true e f = ((permitted_by-permits policy o e, f), tt)
owned_if-Serves p policy model o true none false e f = tt

owned_plan-Serves :
    (p : Planner) (policy : Policy) (model : Option String) (o : String)
    → Holds (All (On (Serves p policy))) (owned_plan p (some policy) model o)
unfolding owned_plan
owned_plan-Serves p policy model o =
    owned_if-Serves p policy model o (Dict.has String-discrete o p.providers)
      (permitted_by (some policy) o) (usable p o) refl refl

automatic-Serves :
    (p : Planner) (r : CompletionRequest) (policy : Policy) (owner : Option String)
    (o : Planned (Option Policy))
    → o ≡ planned (some policy)
    → Holds (All (On (Serves p policy))) (automatic p r owner o).1
unfolding automatic by_policy policy_plan
automatic-Serves p r policy none o e = rw e (
    models_for-Holds (Serves p policy) p r policy (plan_with_policy p r policy true).1
      (plan_with_policy-Serves p r policy true))
automatic-Serves p r policy (some n) o e = rw e (owned_plan-Serves p policy r.model n)

-- A property of the providers of a plan is one of what privacy and difficulty leave of it.
module _ (P : String × Option String → Type 0) where
  apply_difficulty-All :
      (p : Planner) (d : Option Difficulty) (xs : Plan) → All P xs → All P (apply_difficulty p d xs)
  unfolding apply_difficulty
  apply_difficulty-All p none xs u = u
  apply_difficulty-All p (some d) xs u =
      All-append P _ _ (All-keep P (wanted p d) xs u) (All-keep P (λ x. not (wanted p d x)) xs u)

  reordered-All :
      (p : Planner) (d : Option Difficulty) (preferred : Option String) (xs : Plan)
      → All P xs
      → All P (reordered p d preferred xs)
  unfolding reordered
  reordered-All p d (some n) xs u = u
  reordered-All p d none xs u = elim (Bool-cases (ltb 1 (length xs))) [
    | inl h ↦ rw (h, reordered) (apply_difficulty-All p d xs u)
    | inr h ↦ rw (h, reordered) u
  ]

  only_private-Holds : (xs : Plan) → All P xs → Holds (All P) (only_private xs)
  unfolding only_private
  only_private-Holds [] u = tt
  only_private-Holds (x ∷ xs) u = u

  for_privacy-Holds :
      (b : Bool) (p : Planner) (d : Option Difficulty) (preferred : Option String) (xs : Plan)
      → All P xs
      → Holds (All P) (for_privacy b p d preferred xs)
  unfolding for_privacy
  for_privacy-Holds true p d preferred xs u = only_private-Holds _ (All-keep P (local_only p) xs u)
  for_privacy-Holds false p d preferred xs u = reordered-All p d preferred xs u

  tagged-Holds :
      (p : Planner) (r : CompletionRequest) (preferred : Option String) (o : Planned Plan)
      → Holds (All P) o
      → Holds (All P) (tagged p r preferred o)
  unfolding tagged
  tagged-Holds p r preferred (refused e) u = tt
  tagged-Holds p r preferred (planned xs) u =
      for_privacy-Holds r.private p r.difficulty preferred xs u

-- Under a policy, a provider that the request did not name is one that the policy permits and
-- whose breaker would admit a call.
pub plan-Serves :
    (p : Planner) (r : CompletionRequest) (policy : Policy)
    → policy_for p r none ≡ planned (some policy)
    → Holds (All (On (Serves p policy))) (plan p r none).1
unfolding plan plan_any
plan-Serves p r policy e =
    tagged-Holds (On (Serves p policy)) p r none _
      (automatic-Serves p r policy (owner_of p r.model) (policy_for p r none) e)

abbrev pub StaysLocal : Planner → CompletionRequest → String → Type 0
StaysLocal p r n = (r.private ≡ false) ⊎ (is_local p n ≡ true)

only_private-Local :
    (p : Planner) (r : CompletionRequest) (xs : Plan)
    → All (λ x. local_only p x ≡ true) xs
    → Holds (All (On (StaysLocal p r))) (only_private xs)
unfolding only_private local_only
only_private-Local p r [] u = tt
only_private-Local p r ((n, m) ∷ xs) u =
    All-map (λ x. local_only p x ≡ true) (On (StaysLocal p r)) (λ y h. inr h) ((n, m) ∷ xs) u

All-anyway : {A : Type 0} (P : A → Type 0) (f : (a : A) → P a) (xs : List A) → All P xs
All-anyway P f [] = tt
All-anyway P f (x ∷ xs) = (f x, All-anyway P f xs)

for_privacy-StaysLocal :
    (p : Planner) (r : CompletionRequest) (preferred : Option String) (xs : Plan) (b : Bool)
    → r.private ≡ b
    → Holds (All (On (StaysLocal p r))) (for_privacy b p r.difficulty preferred xs)
unfolding for_privacy
for_privacy-StaysLocal p r preferred xs true e =
    only_private-Local p r _ (keep-All (local_only p) xs)
for_privacy-StaysLocal p r preferred xs false e =
    All-anyway (On (StaysLocal p r)) (λ x. inl e) (reordered p r.difficulty preferred xs)

tagged-StaysLocal :
    (p : Planner) (r : CompletionRequest) (preferred : Option String) (o : Planned Plan)
    → Holds (All (On (StaysLocal p r))) (tagged p r preferred o)
unfolding tagged
tagged-StaysLocal p r preferred (refused e) = tt
tagged-StaysLocal p r preferred (planned xs) =
    for_privacy-StaysLocal p r preferred xs r.private refl

-- A private request is planned for local servers only, whatever its provider, model or policy.
pub plan-StaysLocal :
    (p : Planner) (r : CompletionRequest) (preferred : Option String)
    → Holds (All (On (StaysLocal p r))) (plan p r preferred).1
unfolding plan
plan-StaysLocal p r preferred = tagged-StaysLocal p r preferred (plan_any p r preferred).1
