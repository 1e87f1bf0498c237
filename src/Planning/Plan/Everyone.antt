-- ===== src/Planning/Plan/Everyone.antt =====
-- The plan of a request that names neither a provider nor a model, where no policy applies
-- (coreai/router.py, `_plan_any`).
use mathlib.Core.List.{Perm}
use mathlib.Core.List.Perm
use mathlib.Core.Path.{subst}
use core_ai_protocol_suite.Prelude.{
  contains, String, Bool, true, false, not, ◌||◌, ◌≡◌, refl, sym, Option, none, some, is_some, List,
  ◌∷◌, without, without-perm, IsDistinct, keep-IsDistinct,
}
use core_ai_protocol_suite.Policy.{given}
use core_ai_protocol_suite.Planning.{
  CompletionRequest, Planner, Planned, planned, names_of, healthy, usable,
}
use core_ai_protocol_suite.Planning.Select.{select_provider, failover_order}
use core_ai_protocol_suite.Planning.Select.Least.{select_provider-IsSelected}
use core_ai_protocol_suite.Planning.Select.Others.{failover_order-perm}
use core_ai_protocol_suite.Planning.Owners.{owner_of, policy_for}
use core_ai_protocol_suite.Planning.Plan.{
  Plan, with_model, order_after, open_plan, strategy_plan, by_policy, automatic, plan_any,
}
use core_ai_protocol_suite.Planning.Plan.Explained.{names-with_model}

no_stop : (f b : Bool) → f ≡ true → b ≡ false → (not f || b) ≡ false
no_stop f b u v = rw u v

-- A plan with exactly these providers.
abbrev pub Covers : List String → Planned Plan → Type 0
Covers ns o = (xs : Plan) × (o ≡ planned xs) × Perm (names_of xs) ns

open_plan-Covers :
    (p : Planner) (r : CompletionRequest) (x : String) (xs : List String)
    (s : Planner × Option String)
    → IsDistinct (x ∷ xs)
    → (not p.enable_failover || is_some r.model) ≡ false
    → (y : String) × (s.1 ≡ some y) × (contains y (x ∷ xs) ≡ true)
    → Covers (x ∷ xs) (open_plan p r (x ∷ xs) s).1
unfolding open_plan order_after
open_plan-Covers p r x xs (q, o) d h (y, e, c) =
    let order = y ∷ failover_order p r (without y (x ∷ xs)) in
    subst (λ (z : Option String). Covers (x ∷ xs) (open_plan p r (x ∷ xs) (q, z)).1) (sym e)
      (
        with_model r.model order,
        rw (h, order_after) refl,
        rw (names-with_model r.model order) (
            Perm.trans (Perm.cons y (failover_order-perm p r (without y (x ∷ xs))))
              (without-perm y (x ∷ xs) d c)),
      )

strategy_plan-Covers :
    (p : Planner) (r : CompletionRequest) (ns : List String) (x : String) (xs : List String)
    → ns ≡ x ∷ xs
    → IsDistinct ns
    → (not p.enable_failover || is_some r.model) ≡ false
    → Covers ns (strategy_plan p r ns).1
unfolding strategy_plan
strategy_plan-Covers p r ns x xs e d h =
    subst (λ (l : List String). Covers l (strategy_plan p r l).1) (sym e)
      (open_plan-Covers p r x xs (select_provider p r (x ∷ xs)) (subst IsDistinct e d) h
        (select_provider-IsSelected p r x xs))

owner_of-none : (p : Planner) (m : Option String) → m ≡ none → owner_of p m ≡ none
unfolding owner_of given
owner_of-none p m e = rw (e, owner_of) refl

is_some-none : (m : Option String) → m ≡ none → is_some m ≡ false
is_some-none m e = rw e refl

healthy-IsDistinct : (p : Planner) → IsDistinct (names_of p.providers) → IsDistinct (healthy p)
unfolding healthy
healthy-IsDistinct p d = keep-IsDistinct (usable p) (names_of p.providers) d

-- Where failover is on, no policy applies and some provider is healthy, a request that names
-- neither a provider nor a model is planned for every healthy provider, each exactly once.
pub plan_any-Covers :
    (p : Planner) (r : CompletionRequest) (x : String) (xs : List String)
    → IsDistinct (names_of p.providers)
    → healthy p ≡ x ∷ xs
    → p.enable_failover ≡ true
    → r.model ≡ none
    → policy_for p r none ≡ planned none
    → Covers (healthy p) (plan_any p r none).1
unfolding plan_any automatic by_policy
plan_any-Covers p r x xs d some_healthy failover m no_policy =
    rw (owner_of-none p r.model m, no_policy, plan_any)
      (strategy_plan-Covers p r (healthy p) x xs some_healthy (healthy-IsDistinct p d)
        (no_stop p.enable_failover (is_some r.model) failover (is_some-none r.model m)))
