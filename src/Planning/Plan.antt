-- ===== src/Planning/Plan.antt =====
-- src/coreai/router.py: the candidates of a request with the model for each (`_plan_any`), what
-- privacy and difficulty make of them (`_plan`, `_apply_difficulty`), and the dry run `explain`, of
-- which the order is kept.
pub mod Safety
pub mod Explained
pub mod Everyone
pub mod Reordered
use core_ai_protocol_suite.Prelude.{
  String, String-discrete, Bool, true, false, not, ◌&&◌, ◌||◌, Option, none, some, is_some, List,
  [], ◌∷◌, ◌++◌, map, keep, same, without, length, ltb,
}
use core_ai_protocol_suite.Dict
use core_ai_protocol_suite.Policy.{Policy, permits, Reason}
use core_ai_protocol_suite.Planning.{
  CompletionRequest, Difficulty, easy, hard, Planner, PlanError, all_open, no_providers, forbidden,
  other_provider, missing_owner, private_needs_local, Planned, planned, refused, names_of, is_local,
  usable, healthy,
}
use core_ai_protocol_suite.Planning.Select.{select_provider, failover_order}
use core_ai_protocol_suite.Planning.Policies.{plan_with_policy, policy_models}
use core_ai_protocol_suite.Planning.Owners.{owner_of, policy_for}

abbrev pub Plan : Type 0
Plan = List (String × Option String)

unfoldable pub with_model : Option String → List String → Plan
with_model m [] = []
with_model m (n ∷ ns) = (n, m) ∷ with_model m ns

permitted_by : Option Policy → String → Option (String × Reason)
permitted_by none o = none
permitted_by (some policy) o = elim (permits policy o) [
  | none ↦ none
  | some why ↦ some (policy.name, why)
]

-- A provider named by the caller.
preferred_plan : Option String → String → Option String → Planned Plan
preferred_plan model n none = planned ((n, model) ∷ [])
preferred_plan model n (some o) = elim (same o n) [
  | true ↦ planned ((n, model) ∷ [])
  | false ↦ refused (other_provider o n)
]

-- A model that a provider owns.
owned_if : Bool → Option (String × Reason) → Bool → Option String → String → Planned Plan
owned_if false why up model o = refused (missing_owner o)
owned_if true (some (name, why)) up model o = refused (forbidden name o why)
owned_if true none true model o = planned ((o, model) ∷ [])
owned_if true none false model o = refused (all_open (o ∷ []))

owned_plan : Planner → Option Policy → Option String → String → Planned Plan
unfolding owned_if
owned_plan p policy model o =
    owned_if (Dict.has String-discrete o p.providers) (permitted_by policy o) (usable p o) model o

modelled : Planner → Policy → Option String → List String → Plan
unfolding with_model
modelled p policy none order = policy_models p policy order
modelled p policy (some m) order = with_model (some m) order

models_for : Planner → CompletionRequest → Policy → Planned (List String) → Planned Plan
unfolding modelled
models_for p r policy (refused e) = refused e
models_for p r policy (planned order) = planned (modelled p policy r.model order)

policy_plan : Planner → CompletionRequest → Policy → Planner × Planned Plan
unfolding models_for
policy_plan p r policy =
    let ordered = plan_with_policy p r policy true in (ordered.0, models_for p r policy ordered.1)

-- The primary and, where failover is on and no model is named, the others behind it.
order_after : Planner → CompletionRequest → List String → String → List String
order_after p r ns primary = elim (not p.enable_failover || is_some r.model) [
  | true ↦ primary ∷ []
  | false ↦ primary ∷ failover_order p r (without primary ns)
]

open_plan :
    Planner → CompletionRequest → List String → Planner × Option String → Planner × Planned Plan
unfolding with_model order_after
open_plan p r ns (q, none) = (q, refused no_providers)
open_plan p r ns (q, some primary) = (q, planned (with_model r.model (order_after p r ns primary)))

-- Without a policy: every healthy provider, by the router's own strategy.
strategy_plan : Planner → CompletionRequest → List String → Planner × Planned Plan
unfolding open_plan
strategy_plan p r [] = (p, refused (all_open (names_of p.providers)))
strategy_plan p r (n ∷ ns) = open_plan p r (n ∷ ns) (select_provider p r (n ∷ ns))

by_policy : Planner → CompletionRequest → Option Policy → Planner × Planned Plan
unfolding policy_plan strategy_plan
by_policy p r (some policy) = policy_plan p r policy
by_policy p r none = strategy_plan p r (healthy p)

automatic :
    Planner → CompletionRequest → Option String → Planned (Option Policy) → Planner × Planned Plan
unfolding owned_plan by_policy
automatic p r owner (refused e) = (p, refused e)
automatic p r none (planned policy) = by_policy p r policy
automatic p r (some o) (planned policy) = (p, owned_plan p policy r.model o)

-- _plan_any; an owner is found only for a model that is named.
unfoldable pub plan_any : Planner → CompletionRequest → Option String → Planner × Planned Plan
unfolding preferred_plan automatic permitted_by
plan_any p r (some n) = (p, preferred_plan r.model n (owner_of p r.model))
plan_any p r none = automatic p r (owner_of p r.model) (policy_for p r none)

-- Those wanted first, and the others behind them.
pub wanted : Planner → Difficulty → String × Option String → Bool
wanted p easy (n, m) = is_local p n
wanted p hard (n, m) = not (is_local p n)

-- _apply_difficulty
unfoldable pub apply_difficulty : Planner → Option Difficulty → Plan → Plan
unfolding wanted
apply_difficulty p none plan = plan
apply_difficulty p (some d) plan = keep (wanted p d) plan ++ keep (λ x. not (wanted p d x)) plan

local_only : Planner → String × Option String → Bool
local_only p (n, m) = is_local p n

only_private : Plan → Planned Plan
only_private [] = refused private_needs_local
only_private (x ∷ xs) = planned (x ∷ xs)

reordered : Planner → Option Difficulty → Option String → Plan → Plan
reordered p d (some _) plan = plan
reordered p d none plan = elim (ltb 1 (length plan)) [
  | true ↦ apply_difficulty p d plan
  | false ↦ plan
]

for_privacy : Bool → Planner → Option Difficulty → Option String → Plan → Planned Plan
unfolding only_private local_only reordered
for_privacy true p d preferred xs = only_private (keep (local_only p) xs)
for_privacy false p d preferred xs = planned (reordered p d preferred xs)

tagged : Planner → CompletionRequest → Option String → Planned Plan → Planned Plan
unfolding for_privacy
tagged p r preferred (refused e) = refused e
tagged p r preferred (planned xs) = for_privacy r.private p r.difficulty preferred xs

-- _plan
unfoldable pub plan : Planner → CompletionRequest → Option String → Planner × Planned Plan
unfolding tagged
plan p r preferred = let any = plan_any p r preferred in (any.0, tagged p r preferred any.1)

explained : Planner → CompletionRequest → List String → Option String → Planned (List String)
unfolding order_after
explained p r ns none = refused no_providers
explained p r ns (some primary) = planned (order_after p r ns primary)

-- _candidates_no_side_effects: what the selection does to the counter is put back.
candidates_no_side_effects : Planner → CompletionRequest → List String → Planned (List String)
unfolding explained
candidates_no_side_effects p r [] = refused (all_open (names_of p.providers))
candidates_no_side_effects p r (n ∷ ns) = explained p r (n ∷ ns) (select_provider p r (n ∷ ns)).1

explain_policy : Planner → CompletionRequest → Planned (Option Policy) → Planned (List String)
unfolding candidates_no_side_effects
explain_policy p r (refused e) = refused e
explain_policy p r (planned none) = candidates_no_side_effects p r (healthy p)
explain_policy p r (planned (some policy)) = (plan_with_policy p r policy false).1

explain_pinned : Planner → String → Planned (List String)
explain_pinned p n = elim (Dict.has String-discrete n p.providers) [
  | true ↦ planned (n ∷ [])
  | false ↦ refused (missing_owner n)
]

-- explain
unfoldable pub explain :
    Planner → CompletionRequest → Option String → Option String → Planned (List String)
unfolding explain_policy explain_pinned
explain p r policy_name (some n) = explain_pinned p n
explain p r policy_name none = explain_policy p r (policy_for p r policy_name)
