-- ===== src/Policy.antt =====
-- src/coreai/policy.py: declarative routing policies.
--
-- Weights are counted in thousandths and times in milliseconds. A set of names (`frozenset`) is the
-- list of its members.
use text.Mathlib.Text.{◌==◌ as str_eq}
use core_ai_protocol_suite.Prelude.{
  ℕ, String, String-discrete, true, false, Option, none, some, List, contains,
}
use core_ai_protocol_suite.Dict.{Dict}
use core_ai_protocol_suite.Dict

-- The canonical names: the values of STRATEGIES.
pub data Strategy : Type 0 where
  balanced cheapest fastest round_robin fallback explicit : Strategy

pub record Policy : Type 0 where
  pub name : String
  pub strategy : Strategy
  pub cost_weight : ℕ
  pub latency_weight : ℕ
  pub latency_ceiling_ms : Option ℕ
  pub hedge_after_ms : Option ℕ
  pub fallback_chain : List String
  pub fallback_model : Option String
  pub provider : Option String
  pub model : Option String
  pub allow : Option (List String)
  pub deny : List String

pub data Reason : Type 0 where
  denied not_allowed not_in_chain : Reason

outside_allow : String → Option (List String) → Option Reason
outside_allow p none = none
outside_allow p (some names) = elim (contains p names) [ true ↦ none | false ↦ some not_allowed ]

-- `none` where the policy permits the provider.
unfoldable pub permits : Policy → String → Option Reason
unfolding outside_allow
permits policy p = elim (contains p policy.deny) [
  | true ↦ some denied
  | false ↦ outside_allow p policy.allow
]

abbrev pub PolicySet : Type 0
PolicySet = Dict String Policy

-- `name or ...`: a name that is missing or empty does not count.
unfoldable pub given : Option String → Option String
given none = none
given (some s) = elim (str_eq s "") [ true ↦ none | false ↦ some s ]

or_default : Option String → String
or_default none = "default"
or_default (some s) = s

-- PolicySet.get
unfoldable pub get : Option String → PolicySet → Option Policy
unfolding or_default
get name policies = Dict.get String-discrete (or_default (given name)) policies
