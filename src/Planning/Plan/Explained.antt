-- ===== src/Planning/Plan/Explained.antt =====
-- The dry run and the plan before privacy and difficulty (coreai/router.py, `explain`, `_plan_any`).
use core_ai_protocol_suite.Prelude.{
  String, true, ◌≡◌, refl, sym, ap, ◌∙◌, Option, none, some, List, [], ◌∷◌,
}
use core_ai_protocol_suite.Policy.{Policy}
use core_ai_protocol_suite.Planning.{
  CompletionRequest, Planner, Planned, planned, refused, names_of, healthy,
}
use core_ai_protocol_suite.Planning.Select.{select_provider}
use core_ai_protocol_suite.Planning.Policies.{plan_with_policy}
use core_ai_protocol_suite.Planning.Owners.{owner_of, policy_for}
use core_ai_protocol_suite.Planning.Policies.Named.{names-policy_models, plan_with_policy_advance}
use core_ai_protocol_suite.Planning.Plan.{
  Plan, with_model, modelled, models_for, policy_plan, order_after, open_plan, strategy_plan,
  by_policy, automatic, plan_any, explained, candidates_no_side_effects, explain_policy, explain,
}

-- The providers of a plan, in order.
abbrev pub order_of : Planned Plan → Planned (List String)
order_of (refused e) = refused e
order_of (planned xs) = planned (names_of xs)

pub names-with_model : (m : Option String) (ns : List String) → names_of (with_model m ns) ≡ ns
unfolding with_model
names-with_model m [] = refl
names-with_model m (n ∷ ns) = ap (λ (l : List String). n ∷ l) (names-with_model m ns)

names-modelled :
    (p : Planner) (policy : Policy) (m : Option String) (ns : List String)
    → names_of (modelled p policy m ns) ≡ ns
unfolding modelled
names-modelled p policy none ns = names-policy_models p policy ns
names-modelled p policy (some m) ns = names-with_model (some m) ns

order-models_for :
    (p : Planner) (r : CompletionRequest) (policy : Policy) (o : Planned (List String))
    → order_of (models_for p r policy o) ≡ o
unfolding models_for
order-models_for p r policy (refused e) = refl
order-models_for p r policy (planned ns) =
    ap (λ (l : List String). planned l) (names-modelled p policy r.model ns)

explained-open_plan :
    (p : Planner) (r : CompletionRequest) (ns : List String) (s : Planner × Option String)
    → explained p r ns s.1 ≡ order_of (open_plan p r ns s).1
unfolding explained open_plan
explained-open_plan p r ns (q, none) = refl
explained-open_plan p r ns (q, some primary) =
    ap (λ (l : List String). planned l)
      (sym (names-with_model r.model (order_after p r ns primary)))

explained-strategy_plan :
    (p : Planner) (r : CompletionRequest) (ns : List String)
    → candidates_no_side_effects p r ns ≡ order_of (strategy_plan p r ns).1
unfolding candidates_no_side_effects strategy_plan
explained-strategy_plan p r [] = refl
explained-strategy_plan p r (n ∷ ns) =
    explained-open_plan p r (n ∷ ns) (select_provider p r (n ∷ ns))

explain-automatic :
    (p : Planner) (r : CompletionRequest) (o : Planned (Option Policy))
    → explain_policy p r o ≡ order_of (automatic p r none o).1
unfolding explain_policy automatic by_policy policy_plan
explain-automatic p r (refused e) = refl
explain-automatic p r (planned none) = explained-strategy_plan p r (healthy p)
explain-automatic p r (planned (some policy)) =
    plan_with_policy_advance p r policy
    ∙ sym (order-models_for p r policy (plan_with_policy p r policy true).1)

-- The dry run of a request that names no provider, and no model that a provider owns, names the
-- providers that `_plan_any` plans it for, in that order, before what privacy and difficulty make
-- of them, or fails with the same error.
pub explain-plan_any :
    (p : Planner) (r : CompletionRequest)
    → owner_of p r.model ≡ none
    → explain p r none none ≡ order_of (plan_any p r none).1
unfolding explain plan_any
explain-plan_any p r e = rw (e, plan_any) (explain-automatic p r (policy_for p r none))
