-- ===== src/Harness/Tests.antt =====
-- An agent that waits for the approval of a deployment (harness/runner.py), and instances of the
-- theorems.
use text.Mathlib.Text.{◌==◌ as str_eq}
use core_ai_protocol_suite.Dict
use core_ai_protocol_suite.Prelude.{
  ℕ, ◌≡◌, refl, ◌⊎◌, String, String-discrete, true, false, Option, none, some, List, [], ◌∷◌,
  length, if◌then◌else◌,
}
use core_ai_protocol_suite.Conversation.{
  ToolCall, Message, validate_conversation, spoken, check_spoken, last_of,
}
use core_ai_protocol_suite.Tools.{destructive, output}
use core_ai_protocol_suite.Tools.Tests.{registry}
use core_ai_protocol_suite.ToolLoop.{Response, asks}
use core_ai_protocol_suite.Harness.Context.{Measure, compact, user_says}
use core_ai_protocol_suite.Harness.Context.Valid.{compact-valid}
use core_ai_protocol_suite.Harness.Store.{
  waiting_approval, completed, answered, idle, Run, by_kill, get,
}
use core_ai_protocol_suite.Harness.Runner.{
  responds, Outside, AgentDef, Authority, State, start_of, is_finished,
}
use core_ai_protocol_suite.Harness.Loop.{execute, check, ends}
use core_ai_protocol_suite.Harness.Loop.Writes.{is_running}
use core_ai_protocol_suite.Harness.Loop.Ends.{IsBounded, execute-IsSettled}
use core_ai_protocol_suite.Harness.Loop.Supervision.{HasGrown, execute-HasGrown}
use core_ai_protocol_suite.Harness.Control.{is_idle, kill_runs}
use core_ai_protocol_suite.Harness.Control.Final.{
  executes, cancels, kills, perform_all, perform_all-finished,
}
use core_ai_protocol_suite.Harness.Control.Killed.{kill_runs-IsStopped}

abbrev deploying : ToolCall
deploying = record { id = "call-1"; name = "deploy"; arguments = "7" }

abbrev asks_deploy : Response
asks_deploy = record {
  content = "";
  tool_calls = deploying ∷ [];
  cost = 1;
  input_tokens = 2;
  output_tokens = 3;
}

abbrev says_done : Response
says_done = record {
  content = "deployed";
  tool_calls = [];
  cost = 1;
  input_tokens = 2;
  output_tokens = 3;
}

-- A message counts as one token, and nothing is long.
abbrev measure : Measure
measure = record {
  count = λ ms. length ms;
  long = λ c. false;
  note = λ ms. "dropped";
  placeholder = user_says "";
  max_tokens = 2;
  keep_recent = 1;
}

abbrev outside : Outside ℕ
outside = record {
  handled = λ n. output "done";
  clock = λ n. n;
  parse = λ text. some 7;
  model = λ n. responds says_done;
  signal = λ n. none;
  time = λ n. n;
  measure = measure;
  strip = λ text. text;
  has_plan = λ c. false;
  with_plan = λ c plan. c;
  plan_prompt = λ n c. "plan";
  summary_prompt = λ ms. "summarize";
  summary_note = λ text. text;
}

abbrev agent : AgentDef
agent = record {
  allowed_tools = "deploy" ∷ [];
  approval_tools = "deploy" ∷ [];
  max_steps = 3;
  max_cost = some 100;
  max_total_tokens = none;
  stall_repeats = 3;
  plan = none;
  ask_when_uncertain = false;
  summarize = true;
}

abbrev agents : String → Option AgentDef
agents name = if str_eq name "ops" then some agent else none

abbrev authority : Authority
authority = record { caller = "agent"; max_permission = destructive }

abbrev waiting : Run
waiting = record {
  agent = "ops";
  owner = "alice";
  status = waiting_approval;
  stop_reason = none;
  step = 1;
  cost = 1;
  input_tokens = 2;
  output_tokens = 3;
  control = idle;
  pending = some (deploying ∷ []);
  messages = user_says "deploy it" ∷ asks asks_deploy ∷ [];
  result = none;
  deadline = some 50;
}

abbrev done : Run
done = record waiting { status = completed; stop_reason = some answered; pending = none }

abbrev state : State ℕ
state = record {
  store = ("r1", waiting) ∷ ("r2", done) ∷ [];
  tools = record { registry = registry; approvals = tt; reads = 0 };
  asked = 0;
  checks = 0;
  sent = [];
}

execute-IsSettled_example :
    IsBounded outside agent authority "r1"
      (start_of waiting)
      state
      (execute outside agents authority "r1" (some true) state)
unfolding get Dict.get String-discrete is_finished
execute-IsSettled_example =
    execute-IsSettled outside agents authority "r1" (some true) state waiting agent refl refl refl

execute-HasGrown_example :
    HasGrown outside agent authority registry
      (some deploying)
      state.tools
      (execute outside agents authority "r1" (some true) state).0.tools
unfolding get Dict.get String-discrete is_finished
execute-HasGrown_example =
    execute-HasGrown outside agents authority "r1" (some true) state waiting agent refl refl

perform_all-finished_example :
    get "r2"
      (perform_all outside agents authority
        (executes "r1" (some true) ∷ cancels "r2" ∷ kills none ∷ executes "r2" none ∷ [])
        state).store
    ≡ some done
unfolding get Dict.get String-discrete is_finished
perform_all-finished_example =
    perform_all-finished outside agents authority
      (executes "r1" (some true) ∷ cancels "r2" ∷ kills none ∷ executes "r2" none ∷ []) "r2" state
      done refl refl

kill_runs-IsStopped_example :
    (q : Run) × (get "r1" (kill_runs (some "alice") state.store) ≡ some q)
    × (is_idle q.status ≡ false)
    × ((is_running q.status ≡ false)
        ⊎ ((check outside agent authority "r1"
              (start_of waiting)
              (record state { store = kill_runs (some "alice") state.store })).1
            ≡ ends by_kill))
unfolding get Dict.get String-discrete
kill_runs-IsStopped_example =
    kill_runs-IsStopped outside agent authority (some "alice") "r1" (start_of waiting) state waiting
      refl refl refl

compact-valid_example :
    let ms = user_says "deploy it" ∷ user_says "now" ∷ user_says "please" ∷ [] in
    (validate_conversation (compact measure ms).0 ≡ none)
    × (rest : List Message) × ((compact measure ms).0 ≡ user_says "deploy it" ∷ rest)
unfolding validate_conversation spoken check_spoken last_of
compact-valid_example =
    compact-valid measure (user_says "deploy it") (user_says "now" ∷ user_says "please" ∷ []) refl
      refl
