-- ===== src/Planning/Screen.antt =====
-- src/coreai/router.py: why a model cannot serve a request (`_model_problem`), the candidates that
-- are left (`_screen`), whether tools can be offered, and the delay before a hedge.
pub mod Fit
use core_ai_protocol_suite.Prelude.{
  ℕ, ◌+◌, String, Bool, true, false, not, ◌&&◌, ◌||◌, Option, none, some, is_some, List, [], ◌∷◌,
  ◌++◌, ltb, leb, length, any, ◌==◌, if◌then◌else◌,
}
use core_ai_protocol_suite.Policy.{Policy, given}
use core_ai_protocol_suite.Planning.{
  CompletionRequest, ModelProfile, Provider, Planner, Problem, no_image_input, no_streamed_tools,
  no_tool_calling, provider_problem, model_without_images, model_without_tools, over_context,
  over_output, model_without_streaming, PlanError, over_budget, cannot_serve, nobody_can_serve,
  Planned, planned, refused, get_provider, resolve_model_profile, estimate_tokens,
}
use core_ai_protocol_suite.Planning.Owners.{policy_for}
use core_ai_protocol_suite.Planning.Plan.{Plan, plan}

number : Option ℕ → ℕ
number none = 0
number (some n) = n

first_problem : List (Bool × Problem) → Option Problem
first_problem [] = none
first_problem ((true, why) ∷ tests) = some why
first_problem ((false, _) ∷ tests) = first_problem tests

-- What the catalogue knows against it. 0 output tokens in the profile are no limit.
unfoldable pub profile_problem : CompletionRequest → Option ModelProfile → Option Problem
unfolding first_problem number
profile_problem r none = none
profile_problem r (some f) =
    let out = number r.max_tokens in
    first_problem (
      (ltb 0 r.images && not f.vision, model_without_images f.model_id)
      ∷ (r.tools && not f.supports_function_calling, model_without_tools f.model_id)
      ∷ (not (leb (estimate_tokens r + out) f.context_window), over_context f.model_id)
      ∷ (not (f.max_output_tokens == 0) && ltb f.max_output_tokens out, over_output f.model_id)
      ∷ (r.stream && not f.supports_streaming, model_without_streaming f.model_id)
      ∷ [])

tools_problem : CompletionRequest → Provider → Option Problem
unfolding first_problem
tools_problem r q = first_problem (
    (ltb 0 r.images && not q.supports_vision, no_image_input)
    ∷ (r.tools && r.stream, no_streamed_tools)
    ∷ (r.tools && not q.supports_tools, no_tool_calling)
    ∷ [])

own_problem : CompletionRequest → Provider → Option Problem
own_problem r q = elim (q.capability_problem r) [
  | none ↦ none
  | some text ↦ some (provider_problem text)
]

unfoldable pub or_else : Option Problem → Option Problem → Option Problem
or_else (some why) later = some why
or_else none later = later

unfoldable pub provider_problems : CompletionRequest → Option Provider → Option Problem
unfolding tools_problem own_problem
provider_problems r none = none
provider_problems r (some q) = or_else (tools_problem r q) (own_problem r q)

-- _model_problem
unfoldable pub model_problem : Planner → CompletionRequest → String → Option Problem
model_problem p r n =
    or_else (provider_problems r (get_provider p n))
      (profile_problem r (resolve_model_profile p n r.model))

default_of : Option Provider → String
default_of none = ""
default_of (some q) = q.default_model

-- `request.model or self.providers[name].default_model`
unfoldable pub model_used : Planner → Option String → String → String
unfolding default_of
model_used p model n = elim (given model) [ some m ↦ m | none ↦ default_of (get_provider p n) ]

-- _admit_model: whether the gate lets the candidate's model through.
unfoldable pub admit_model : Planner → CompletionRequest → String → Bool
admit_model p r n = p.model_gate (model_used p r.model n)

abbrev pub Screened : Type 0
Screened = List (String × CompletionRequest)

-- `dataclasses.replace(request, model=model)`
unfoldable pub for_model : CompletionRequest → Option String → CompletionRequest
for_model r model = record r { model = model }

-- The candidates are put in front of `rest`, and the first reason is kept.
unfoldable pub screen_from :
    Planner → CompletionRequest → Bool → Option Problem → Bool → Screened → Plan → Planned Screened
screen_from p r hard problem spent kept [] = elim kept [
  | x ∷ xs ↦ planned (x ∷ xs)
  | [] ↦ elim spent [
    | true ↦ refused over_budget
    | false ↦ elim problem [
      | some why ↦ refused (cannot_serve why)
      | none ↦ refused nobody_can_serve
    ]
  ]
]
screen_from p r hard problem spent kept ((n, m) ∷ rest) =
    let req = for_model r m in
    elim (model_problem p req n) [
      | some why ↦ elim hard [
        | true ↦ refused (cannot_serve why)
        | false ↦ screen_from p r hard (or_else problem (some why)) spent kept rest
      ]
      | none ↦ elim (admit_model p req n) [
        | true ↦ screen_from p r hard problem spent (kept ++ (n, req) ∷ []) rest
        | false ↦ elim hard [
          | true ↦ refused over_budget
          | false ↦ screen_from p r hard problem true kept rest
        ]
      ]
    ]

screen_plan : Planner → CompletionRequest → Option String → Planned Plan → Planned Screened
screen_plan p r preferred (refused e) = refused e
screen_plan p r preferred (planned xs) =
    screen_from p r (is_some preferred || is_some r.model || length xs == 1) none false [] xs

-- _screen
unfoldable pub screen : Planner → CompletionRequest → Option String → Planner × Planned Screened
unfolding screen_plan
screen p r preferred =
    let order = plan p r preferred in (order.0, screen_plan p r preferred order.1)

about_tools : Problem → Bool
about_tools no_tool_calling = true
about_tools (model_without_tools _) = true
about_tools (provider_problem text) = false
about_tools no_image_input = false
about_tools no_streamed_tools = false
about_tools (model_without_images _) = false
about_tools (over_context _) = false
about_tools (over_output _) = false
about_tools (model_without_streaming _) = false

can_call : Option Problem → Bool
unfolding about_tools
can_call none = true
can_call (some why) = not (about_tools why)

some_can_call : Planner → CompletionRequest → Planned Plan → Bool
unfolding can_call
some_can_call p probe (refused _) = true
some_can_call p probe (planned xs) =
    any (λ (x : String × Option String). can_call (model_problem p probe x.0)) xs

-- can_offer_tools: the probe is planned like a request. A provider's own text is taken not to
-- speak of tool calling.
unfoldable pub can_offer_tools : Planner → CompletionRequest → Option String → Planner × Bool
unfolding some_can_call
can_offer_tools p r preferred =
    let probe = record r { tools = true; stream = false } in
    let order = plan p probe preferred in (order.0, some_can_call p probe order.1)

hedge_of : Planner → Planned (Option Policy) → Planned (Option ℕ)
hedge_of p (refused e) = refused e
hedge_of p (planned none) = planned p.hedge_after
hedge_of p (planned (some policy)) = elim policy.hedge_after_ms [
  | some ms ↦ planned (some ms)
  | none ↦ planned p.hedge_after
]

-- _hedge_delay, in milliseconds; `none` is no hedging.
unfoldable pub hedge_delay : Planner → CompletionRequest → Option String → Planned (Option ℕ)
unfolding hedge_of
hedge_delay p r preferred = elim (is_some preferred || r.stream || is_some r.model) [
  | true ↦ planned none
  | false ↦ hedge_of p (policy_for p r none)
]
