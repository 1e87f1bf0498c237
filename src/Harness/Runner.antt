-- ===== src/Harness/Runner.antt =====
-- src/harness/runner.py: the loop of an agent run over the store, the tools and the model.
--
-- `Outside` holds what the run cannot decide: what handlers do, the clocks, the model's answer to
-- each call, and the signal that another request wrote before each check of the limits. The tests
-- on texts that the plan, the summaries and the arguments need are parameters. Costs are natural numbers. The
-- requests sent to the model are the list `sent`, newest first. Left out: the trace of events, the
-- bus, the recall of memories and the timeouts, which make an answer of the model an exception.
use text.Mathlib.Text.{◌==◌ as str_eq}
use core_ai_protocol_suite.Prelude.{
  ℕ, zero, suc, ◌+◌, String, Bool, true, false, not, ◌&&◌, Option, none, some, List, [], ◌∷◌, leb,
  if◌then◌else◌,
}
use core_ai_protocol_suite.Conversation.{ToolCall, Content, Message, assistant}
use core_ai_protocol_suite.Tools.{Permission, Handled}
use core_ai_protocol_suite.ToolLoop.{Response, World}
use core_ai_protocol_suite.Harness.Context.{Measure}
use core_ai_protocol_suite.Harness.Store.{
  Status, paused, completed, cancelled, failed, Signal, idle, pause, cancel, kill, Reason, by_pause,
  by_cancel, by_kill, deadline, max_steps, cost_limit, token_limit, answered, error, Run, RunStore,
  Progress,
}

-- What an awaited call of the model comes to.
pub data Answer : Type 0 where
  responds : Response → Answer
  raises stops : Answer

pub record Outside (Args : Type 0) : Type 0 where
  pub handled : ℕ → Handled
  pub clock : ℕ → ℕ
  pub parse : String → Option Args
  pub model : ℕ → Answer
  pub signal : ℕ → Option Signal
  pub time : ℕ → ℕ
  pub measure : Measure
  pub strip : String → String
  pub has_plan : Content → Bool
  pub with_plan : Content → String → Content
  pub plan_prompt : ℕ → Content → String
  pub summary_prompt : List Message → String
  pub summary_note : String → String

-- `AgentDef`, what the loop reads of it; `plan` is `plan_max_steps` where the flag `plan` is set.
pub record AgentDef : Type 0 where
  pub allowed_tools : List String
  pub approval_tools : List String
  pub max_steps : ℕ
  pub max_cost : Option ℕ
  pub max_total_tokens : Option ℕ
  pub stall_repeats : ℕ
  pub plan : Option ℕ
  pub ask_when_uncertain : Bool
  pub summarize : Bool

-- `caller` and `max_permission` of the runner.
pub record Authority : Type 0 where
  pub caller : String
  pub max_permission : Permission

-- `asked` counts the calls of the model, `checks` the checks of the limits.
pub record State (Args : Type 0) : Type 0 where
  pub store : RunStore
  pub tools : World Args (Unit {0})
  pub asked : ℕ
  pub checks : ℕ
  pub sent : List (List Message)

abbrev pub review_tool : String
review_tool = "request_human_review"

abbrev pub start_of : Run → Progress
start_of r = record {
  step = r.step;
  cost = r.cost;
  input_tokens = r.input_tokens;
  output_tokens = r.output_tokens;
}

abbrev pub spend : Response → Progress → Progress
spend r p = record p {
  cost = p.cost + r.cost;
  input_tokens = p.input_tokens + r.input_tokens;
  output_tokens = p.output_tokens + r.output_tokens;
}

-- `_finished`
unfoldable pub is_finished : Run → Bool
is_finished r = elim r.status [
  | completed ↦ true
  | cancelled ↦ true
  | failed ↦ elim r.stop_reason [ some error ↦ false | _ ↦ true ]
  | _ ↦ false
]

-- `PAUSE_REASONS`
abbrev pub reason_of : Signal → Option Reason
reason_of pause = some by_pause
reason_of cancel = some by_cancel
reason_of kill = some by_kill
reason_of idle = none

abbrev pub past : Option ℕ → ℕ → Bool
past none now = false
past (some d) now = leb d now

abbrev pub over_cost : Option ℕ → ℕ → Bool
over_cost none n = false
over_cost (some cap) n = leb cap n

-- A cap of 0 tokens is no cap.
abbrev pub over_tokens : Option ℕ → ℕ → Bool
over_tokens none n = false
over_tokens (some zero) n = false
over_tokens (some (suc cap)) n = leb (suc cap) n

-- `_limit`, on the row read and the reading of the clock.
unfoldable pub limit : AgentDef → ℕ → Progress → Run → Option Reason
limit a now p r = elim (reason_of r.control) [
  | some reason ↦ some reason
  | none ↦
      if past r.deadline now
      then some deadline
      else if leb a.max_steps p.step
      then some max_steps
      else if over_cost a.max_cost p.cost
      then some cost_limit
      else if over_tokens a.max_total_tokens (p.input_tokens + p.output_tokens)
      then some token_limit
      else none
]

-- The status that `_end` gives a run.
abbrev pub status_for : Reason → Status
status_for by_pause = paused
status_for answered = completed
status_for by_cancel = cancelled
status_for by_kill = cancelled
status_for _ = failed

-- The names and arguments of the calls of the messages that have some, the newest first.
abbrev pub Signature : Type 0
Signature = List (String × String)

unfoldable pub signature : List ToolCall → Signature
signature [] = []
signature (c ∷ cs) = (c.name, c.arguments) ∷ signature cs

unfoldable pub signatures : List Message → List Signature → List Signature
signatures [] newest = newest
signatures (m ∷ ms) newest = elim m.role [
  | assistant ↦ elim m.tool_calls [
    | [] ↦ signatures ms newest
    | c ∷ cs ↦ signatures ms (signature (c ∷ cs) ∷ newest)
  ]
  | _ ↦ signatures ms newest
]

unfoldable pub same_signature : Signature → Signature → Bool
same_signature [] [] = true
same_signature ((n, a) ∷ s) ((m, b) ∷ t) = str_eq n m && str_eq a b && same_signature s t
same_signature _ _ = false

-- The first `n` of the list are there, and all like `s`.
unfoldable pub repeated : ℕ → Signature → List Signature → Bool
repeated zero s ss = true
repeated (suc n) s [] = false
repeated (suc n) s (t ∷ ss) = same_signature s t && repeated n s ss

-- `_stalled`
unfoldable pub is_stalled : AgentDef → List Message → Bool
is_stalled a ms = elim (signatures ms []) [
  | [] ↦ false
  | s ∷ ss ↦ not (leb a.stall_repeats 1) && repeated a.stall_repeats s (s ∷ ss)
]
