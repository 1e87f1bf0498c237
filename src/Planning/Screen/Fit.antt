-- ===== src/Planning/Screen/Fit.antt =====
-- Which candidates screening leaves (coreai/router.py, `_screen`).
use core_ai_protocol_suite.Prelude.{
  String, Bool, true, false, ◌≡◌, Option, none, some, [], ◌∷◌, ◌++◌, All, All-append, Bool-cases,
  Option-cases, inl, inr,
}
use core_ai_protocol_suite.Policy.{Policy}
use core_ai_protocol_suite.Planning.{CompletionRequest, Planner, Problem, Planned, planned, refused}
use core_ai_protocol_suite.Planning.Owners.{policy_for}
use core_ai_protocol_suite.Planning.Policies.Served.{Serves, Holds}
use core_ai_protocol_suite.Planning.Plan.{Plan, plan}
use core_ai_protocol_suite.Planning.Plan.Safety.{On, StaysLocal, plan-Serves, plan-StaysLocal}
use core_ai_protocol_suite.Planning.Screen.{
  model_problem, admit_model, Screened, for_model, screen_from, screen_plan, screen, or_else,
}

-- The model can serve the request and its budget admits one more.
abbrev pub Fits : Planner → String × CompletionRequest → Type 0
Fits p x = (model_problem p x.1 x.0 ≡ none) × (admit_model p x.1 x.0 ≡ true)

abbrev pub Good : (String → Type 0) → Planner → String × CompletionRequest → Type 0
Good P p x = P x.0 × Fits p x

module _ (P : String → Type 0) (p : Planner) (r : CompletionRequest) (hard : Bool) where
  screen_from-Good :
      (problem : Option Problem) (spent : Bool) (kept : Screened) (xs : Plan)
      → All (Good P p) kept
      → All (On P) xs
      → Holds (All (Good P p)) (screen_from p r hard problem spent kept xs)
  unfolding screen_from
  screen_from-Good problem spent kept [] u v = last problem spent kept u
    where
      last :
          (problem : Option Problem) (spent : Bool) (kept : Screened)
          → All (Good P p) kept
          → Holds (All (Good P p)) (screen_from p r hard problem spent kept [])
      last problem spent (x ∷ xs) u = u
      last problem true [] u = tt
      last (some why) false [] u = tt
      last none false [] u = tt
  screen_from-Good problem spent kept ((n, m) ∷ rest) u v =
      elim (Option-cases (model_problem p (for_model r m) n)) [
        | inr (why, h) ↦ elim (Bool-cases hard) [
          | inl k ↦ rw (h, k, screen_from, Holds) tt
          | inr k ↦
              rw (h, k, screen_from)
                (screen_from-Good (or_else problem (some why)) spent kept rest u v.1)
        ]
        | inl h ↦ elim (Bool-cases (admit_model p (for_model r m) n)) [
          | inl a ↦
              rw (h, a, screen_from)
                (screen_from-Good problem spent (kept ++ (n, for_model r m) ∷ []) rest
                  (All-append (Good P p) kept ((n, for_model r m) ∷ []) u ((v.0, (h, a)), tt)) v.1)
          | inr a ↦ elim (Bool-cases hard) [
            | inl k ↦ rw (h, a, k, screen_from, Holds) tt
            | inr k ↦ rw (h, a, k, screen_from) (screen_from-Good problem true kept rest u v.1)
          ]
        ]
      ]

screen_plan-Good :
    (P : String → Type 0) (p : Planner) (r : CompletionRequest) (preferred : Option String)
    (o : Planned Plan)
    → Holds (All (On P)) o
    → Holds (All (Good P p)) (screen_plan p r preferred o)
unfolding screen_plan
screen_plan-Good P p r preferred (refused e) u = tt
screen_plan-Good P p r preferred (planned xs) u = screen_from-Good P p r _ none false [] xs tt u

-- Every candidate that screening leaves can serve the request with a model whose budget admits it,
-- and where the request is private it is a local server.
pub screen-StaysLocal :
    (p : Planner) (r : CompletionRequest) (preferred : Option String)
    → Holds (All (Good (StaysLocal p r) p)) (screen p r preferred).1
unfolding screen
screen-StaysLocal p r preferred =
    screen_plan-Good (StaysLocal p r) p r preferred (plan p r preferred).1
      (plan-StaysLocal p r preferred)

-- Under a policy, every candidate that screening leaves of a request that names no provider is one
-- that the policy permits, with a breaker that would admit a call, and can serve the request with a
-- model whose budget admits it.
pub screen-Serves :
    (p : Planner) (r : CompletionRequest) (policy : Policy)
    → policy_for p r none ≡ planned (some policy)
    → Holds (All (Good (Serves p policy) p)) (screen p r none).1
unfolding screen
screen-Serves p r policy e =
    screen_plan-Good (Serves p policy) p r none (plan p r none).1 (plan-Serves p r policy e)
