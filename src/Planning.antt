-- ===== src/Planning.antt =====
-- src/coreai/router.py: what the router knows when it plans a request, and the virtual models.
--
-- Costs, latencies and weights are natural numbers (weights and health scores in thousandths).
-- `would_allow` reads the breakers at the time `now`; that a breaker whose window has passed turns
-- half-open when it is read is left to the next `allow`. A request has the lengths of its texts in
-- place of the texts, and the entries of `metadata` that routing reads.
pub mod Select
pub mod Owners
pub mod Ranking
pub mod Policies
pub mod Plan
pub mod Screen
mod Tests
use core_ai_protocol_suite.Prelude.{
  ℕ, zero, suc, min, map, ◌+◌, ◌*◌, ◌/◌, max, String, String-discrete, Bool, true, false, Option,
  none, some, is_some, List, [], ◌∷◌, ◌||◌, if◌then◌else◌, keep,
}
use core_ai_protocol_suite.CircuitBreaker.{CircuitBreaker, would_allow, retry_after}
use core_ai_protocol_suite.Dict.{Dict}
use core_ai_protocol_suite.Dict
use core_ai_protocol_suite.Policy.{Policy, PolicySet, given, Reason}
use core_ai_protocol_suite.Policy

pub data RoutingStrategy : Type 0 where
  cheapest fastest balanced round_robin fallback : RoutingStrategy

pub data Difficulty : Type 0 where
  easy hard : Difficulty

-- `difficulty` is `none` for any other value.
pub record CompletionRequest : Type 0 where
  pub model : Option String
  pub tools : Bool
  pub stream : Bool
  pub max_tokens : Option ℕ
  pub images : ℕ
  pub message_chars : List ℕ
  pub system_chars : ℕ
  pub private : Bool
  pub difficulty : Option Difficulty
  pub policy : Option String
  pub alias : Option String
  pub model_alias : Option String

-- The entries of ModelProfile that routing reads.
pub record ModelProfile : Type 0 where
  pub model_id : String
  pub provider : String
  pub context_window : ℕ
  pub max_output_tokens : ℕ
  pub vision : Bool
  pub supports_streaming : Bool
  pub supports_function_calling : Bool

-- A provider object, with its methods as fields.
pub record Provider : Type 0 where
  pub default_model : String
  pub is_local : Bool
  pub models : List String
  pub supports_vision : Bool
  pub supports_tools : Bool
  pub capability_problem : CompletionRequest → Option String
  pub estimate_cost : ℕ → ℕ → String → ℕ

-- `health name` is the score of the provider's tracker, `model_gate` whether the shared budget of a
-- model admits one more request.
pub record Planner : Type 0 where
  pub strategy : RoutingStrategy
  pub enable_failover : Bool
  pub cost_weight : ℕ
  pub latency_weight : ℕ
  pub health_weight : ℕ
  pub hedge_after : Option ℕ
  pub providers : Dict String Provider
  pub catalogue : Dict String ModelProfile
  pub defaults : Dict String String
  pub breakers : String → CircuitBreaker
  pub now : ℕ
  pub latency_history : String → List ℕ
  pub health : String → ℕ
  pub policies : Option PolicySet
  pub policy_rr : Dict String ℕ
  pub rr_index : ℕ
  pub aliases : Dict String String
  pub model_aliases : Dict String String
  pub model_gate : String → Bool

-- Why the chosen model cannot serve the request: the texts of `_model_problem`.
pub data Problem : Type 0 where
  no_image_input no_streamed_tools no_tool_calling : Problem
  provider_problem : String → Problem
  model_without_images model_without_tools : String → Problem
  over_context over_output model_without_streaming : String → Problem

-- `all_open` is AllProvidersUnavailable with the providers it names, `over_budget` BudgetExceeded;
-- the others are the ValueErrors.
pub data PlanError : Type 0 where
  all_open : List String → PlanError
  over_budget : PlanError
  no_providers : PlanError
  unknown_policy : String → PlanError
  none_permitted : String → PlanError
  forbidden : String → String → Reason → PlanError
  other_provider : String → String → PlanError
  missing_owner : String → PlanError
  private_needs_local : PlanError
  cannot_serve : Problem → PlanError
  nobody_can_serve : PlanError

pub data Planned (A : Type 0) : Type 0 where
  planned : A → Planned A
  refused : PlanError → Planned A

-- `list(self.providers)`
abbrev pub names_of : {V : Type 0} → Dict String V → List String
names_of [] = []
names_of ((n, _) ∷ d) = n ∷ names_of d

unfoldable pub get_provider : Planner → String → Option Provider
get_provider p n = Dict.get String-discrete n p.providers

local_of : Option Provider → Bool
local_of none = false
local_of (some q) = q.is_local

-- `getattr(self.providers[n], "is_local", False) is True`
unfoldable pub is_local : Planner → String → Bool
unfolding local_of
is_local p n = local_of (get_provider p n)

unfoldable pub usable : Planner → String → Bool
usable p n = would_allow p.now (p.breakers n)

-- `[n for n in self.providers if self.breakers[n].would_allow()]`
unfoldable pub healthy : Planner → List String
healthy p = keep (usable p) (names_of p.providers)

-- ModelRegistry.get
unfoldable pub profile : Planner → String → Option ModelProfile
profile p m = Dict.get String-discrete m p.catalogue

-- ModelRegistry.default_for, where a KeyError is `none`.
unfoldable pub default_for : Planner → String → Option ModelProfile
unfolding profile
default_for p n = elim (given (Dict.get String-discrete n p.defaults)) [
  | none ↦ none
  | some m ↦ profile p m
]

-- _resolve_model_profile
unfoldable pub resolve_model_profile : Planner → String → Option String → Option ModelProfile
resolve_model_profile p n model = elim (given model) [
  | none ↦ default_for p n
  | some m ↦ profile p m
]

sum : List ℕ → ℕ
sum [] = 0
sum (n ∷ ns) = n + sum ns

-- _estimate_tokens
unfoldable pub estimate_tokens : CompletionRequest → ℕ
unfolding sum
estimate_tokens r = max 100 ((sum r.message_chars + r.system_chars + 4000 * r.images) / 4)

-- _estimate_output_tokens
unfoldable pub estimate_output_tokens : Option ℕ → ℕ → ℕ
estimate_output_tokens none estimate = estimate
estimate_output_tokens (some zero) estimate = estimate
estimate_output_tokens (some (suc n)) estimate = suc n

-- alias_policy
unfoldable pub alias_policy : Planner → Option String → Option String
alias_policy p model = elim (given model) [
  | none ↦ none
  | some m ↦ elim (Dict.get String-discrete m p.aliases) [
    | none ↦ none
    | some target ↦ elim p.policies [
      | none ↦ none
      | some set ↦ elim (Policy.get (some target) set) [ none ↦ none | some _ ↦ some target ]
    ]
  ]
]

or_empty : Option String → String
or_empty none = ""
or_empty (some s) = s

-- resolve_alias
unfoldable pub resolve_alias : Planner → CompletionRequest → CompletionRequest
unfolding or_empty
resolve_alias p r = elim (profile p (or_empty r.model)) [
  | some _ ↦ r
  | none ↦ elim (Dict.get String-discrete (or_empty r.model) p.model_aliases) [
    | some target ↦ record r { model_alias = r.model; model = some target }
    | none ↦ elim (alias_policy p r.model) [
      | none ↦ r
      | some policy ↦ record r { policy = some policy; alias = r.model; model = none }
    ]
  ]
]

pub data Aliased : Type 0 where
  alias_taken unknown_model : Aliased
  added : Planner → Aliased

-- add_model_alias
unfoldable pub add_model_alias : Planner → String → String → Aliased
add_model_alias p name model =
    if is_some (profile p name) || Dict.has String-discrete name p.aliases
    then alias_taken
    else elim (profile p model) [
      | none ↦ unknown_model
      | some _ ↦
          added (record p { model_aliases = Dict.put String-discrete name model p.model_aliases })
    ]

soonest : List (Option ℕ) → Option ℕ
soonest [] = none
soonest (none ∷ ws) = soonest ws
soonest (some w ∷ ws) = elim (soonest ws) [ none ↦ some w | some v ↦ some (min w v) ]

-- _soonest_retry_after
unfoldable pub soonest_retry_after : Planner → Option ℕ
unfolding soonest
soonest_retry_after p = soonest (map (λ n. retry_after p.now (p.breakers n)) (names_of p.providers))
