-- ===== src/Planning/Tests.antt =====
-- A router of a cloud and a local provider (coreai/router.py), and instances of the theorems.
use mathlib.Core.List.{Perm}
use core_ai_protocol_suite.Prelude.{
  same, String-discrete, ◌≡◌, refl, true, false, none, some, [], ◌∷◌, ◌*◌, All,
}
use core_ai_protocol_suite.CircuitBreaker.{CircuitBreaker, closed, would_allow, observe}
use core_ai_protocol_suite.Dict
use core_ai_protocol_suite.Policy.{Policy, given, permits}
use core_ai_protocol_suite.Policy
use core_ai_protocol_suite.Planning.{
  estimate_tokens, estimate_output_tokens, cheapest, round_robin, CompletionRequest, Provider,
  Planner, planned, refused, private_needs_local, healthy, usable, is_local, get_provider,
}
use core_ai_protocol_suite.Planning.Select.{
  scan, cost, failover_order, balanced_score, latency, middle, or_number, p50_latency,
  select_provider,
}
use core_ai_protocol_suite.Planning.Select.Least.{IsLeast, key_of, select_provider-IsLeast}
use core_ai_protocol_suite.Planning.Select.Rotation.{served, round_robin-fair}
use core_ai_protocol_suite.Planning.Policies.{
  plan_with_policy, eligible, allowed, reason, order_with_policy, apply_policy_models,
  policy_models,
}
use core_ai_protocol_suite.Planning.Ranking.{rank_for_policy}
use core_ai_protocol_suite.Planning.Owners.{owner_of, policy_for}
use core_ai_protocol_suite.Planning.Policies.Served.{Holds, Serves}
use core_ai_protocol_suite.Planning.Plan.{
  with_model, Plan, plan, plan_any, explain, apply_difficulty,
}
use core_ai_protocol_suite.Planning.Plan.Safety.{StaysLocal}
use core_ai_protocol_suite.Planning.Plan.Explained.{order_of, explain-plan_any}
use core_ai_protocol_suite.Planning.Plan.Everyone.{Covers, plan_any-Covers}
use core_ai_protocol_suite.Planning.Screen.{screen}
use core_ai_protocol_suite.Planning.Screen.Fit.{Good, screen-StaysLocal, screen-Serves}

abbrev circuit : CircuitBreaker
circuit = record {
  name = "";
  failure_threshold = 5;
  reset_timeout = 60;
  half_open_max_calls = 1;
  state = closed;
  failures = 0;
  opened_at = 0;
  probes_in_flight = 0;
  total_opened = 0;
  changes = [];
}

abbrev cloud : Provider
cloud = record {
  default_model = "large";
  is_local = false;
  models = [];
  supports_vision = true;
  supports_tools = true;
  capability_problem = λ _. none;
  estimate_cost = λ i o m. i * 3;
}

abbrev server : Provider
server = record {
  default_model = "small";
  is_local = true;
  models = "small" ∷ [];
  supports_vision = false;
  supports_tools = true;
  capability_problem = λ _. none;
  estimate_cost = λ i o m. i;
}

abbrev two : Planner
two = record {
  strategy = cheapest;
  enable_failover = true;
  cost_weight = 700;
  latency_weight = 300;
  health_weight = 500;
  hedge_after = none;
  providers = ("cloud", cloud) ∷ ("server", server) ∷ [];
  catalogue = [];
  defaults = [];
  breakers = λ _. circuit;
  now = 0;
  latency_history = λ _. 40 ∷ 20 ∷ 30 ∷ [];
  health = λ _. 1000;
  policies = none;
  policy_rr = [];
  rr_index = 0;
  aliases = [];
  model_aliases = [];
  model_gate = λ _. true;
}

abbrev question : CompletionRequest
question = record {
  model = none;
  tools = false;
  stream = false;
  max_tokens = none;
  images = 0;
  message_chars = 800 ∷ [];
  system_chars = 0;
  private = false;
  difficulty = none;
  policy = none;
  alias = none;
  model_alias = none;
}

abbrev secret : CompletionRequest
secret = record question { private = true }

abbrev no_server : Policy
no_server = record {
  name = "default";
  strategy = Policy.balanced;
  cost_weight = 700;
  latency_weight = 300;
  latency_ceiling_ms = none;
  hedge_after_ms = none;
  fallback_chain = [];
  fallback_model = none;
  provider = none;
  model = none;
  allow = none;
  deny = "server" ∷ [];
}

abbrev governed : Planner
governed = record two { policies = some (("default", no_server) ∷ []) }

turns_to_server : (plan two question none).1 ≡ planned (("server", none) ∷ ("cloud", none) ∷ [])
unfolding plan plan_any policy_for owner_of given healthy usable would_allow observe select_provider
    scan cost failover_order same String-discrete estimate_tokens estimate_output_tokens
    get_provider Dict.get is_local with_model plan_with_policy eligible allowed reason permits
    Policy.get order_with_policy rank_for_policy balanced_score latency middle or_number p50_latency
    apply_policy_models policy_models apply_difficulty
turns_to_server = refl

private_plan : (plan two secret none).1 ≡ planned (("server", none) ∷ [])
unfolding plan plan_any policy_for owner_of given healthy usable would_allow observe select_provider
    scan cost failover_order same String-discrete estimate_tokens estimate_output_tokens
    get_provider Dict.get is_local with_model plan_with_policy eligible allowed reason permits
    Policy.get order_with_policy rank_for_policy balanced_score latency middle or_number p50_latency
    apply_policy_models policy_models apply_difficulty
private_plan = refl

private_denied : (plan governed secret none).1 ≡ refused private_needs_local
unfolding plan plan_any policy_for owner_of given healthy usable would_allow observe select_provider
    scan cost failover_order same String-discrete estimate_tokens estimate_output_tokens
    get_provider Dict.get is_local with_model plan_with_policy eligible allowed reason permits
    Policy.get order_with_policy rank_for_policy balanced_score latency middle or_number p50_latency
    apply_policy_models policy_models apply_difficulty
private_denied = refl

screen-StaysLocal_example :
    Holds (All (Good (StaysLocal two secret) two)) (screen two secret none).1
screen-StaysLocal_example = screen-StaysLocal two secret none

screen-Serves_example :
    Holds (All (Good (Serves governed no_server) governed)) (screen governed question none).1
unfolding policy_for Policy.get Dict.get String-discrete given
screen-Serves_example = screen-Serves governed question no_server refl

explain-plan_any_example : explain two question none none ≡ order_of (plan_any two question none).1
unfolding owner_of given
explain-plan_any_example = explain-plan_any two question refl

plan_any-Covers_example : Covers ("cloud" ∷ "server" ∷ []) (plan_any two question none).1
unfolding healthy usable would_allow observe policy_for same String-discrete
plan_any-Covers_example =
    plan_any-Covers two question "cloud" ("server" ∷ []) (refl, (refl, tt)) refl refl refl refl

select_provider-IsLeast_example :
    IsLeast
      (key_of cheapest two question ("cloud" ∷ "server" ∷ []))
      ("cloud" ∷ "server" ∷ [])
      (select_provider two question ("cloud" ∷ "server" ∷ [])).1
select_provider-IsLeast_example = select_provider-IsLeast two question "cloud" ("server" ∷ []) tt

abbrev taking_turns : Planner
taking_turns = record two { strategy = round_robin; rr_index = 7 }

round_robin-fair_example :
    Perm
      (served taking_turns question ("cloud" ∷ "server" ∷ []) 2)
      (some "cloud" ∷ some "server" ∷ [])
round_robin-fair_example = round_robin-fair taking_turns question "cloud" ("server" ∷ []) refl
