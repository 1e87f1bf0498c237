-- ===== src/Harness/Calls.antt =====
-- src/harness/runner.py: HarnessRunner._tools, the tool calls of one answer of the model under the
-- decision of a human.
use text.Mathlib.Text.{◌==◌ as str_eq}
use core_ai_protocol_suite.Prelude.{
  String, Bool, true, false, ◌&&◌, Option, none, some, List, [], ◌∷◌, ◌++◌, any, if◌then◌else◌,
}
use core_ai_protocol_suite.Conversation.{ToolCall, words, Message, tool}
use core_ai_protocol_suite.ToolLoop.{Env, Grant, World, answers, is_approval_required, run_one}
use core_ai_protocol_suite.Harness.Runner.{Outside, AgentDef, Authority, review_tool}

module _ {Args : Type 0} (out : Outside Args) (a : AgentDef) (who : Authority) where
  abbrev pub env_of : Bool → Env Args (Unit {0})
  env_of ok = record {
    handled = out.handled;
    clock = out.clock;
    parse = out.parse;
    approve = λ now caller name args s. (s, ok);
    model = λ i. none;
  }

  abbrev pub grant : Grant
  grant = record {
    allowed = a.allowed_tools;
    caller = who.caller;
    max_permission = who.max_permission;
  }

  abbrev pub says_tool : ToolCall → String → Message
  says_tool c text = record {
    role = tool;
    content = words text;
    tool_calls = [];
    tool_call_id = some c.id;
  }

  -- A call that goes to the registry; no message where it needs an approval.
  unfoldable pub attempt :
      ToolCall → Bool → World Args (Unit {0}) → World Args (Unit {0}) × Option Message
  attempt c ok w =
      let r = run_one (env_of ok) grant c w in
      elim (is_approval_required r.1.error_code) [
        | true ↦ (r.0, none)
        | false ↦ (r.0, some (answers r.1))
      ]

  reviewed : Bool → String
  reviewed true = "Human reviewer approved: proceed."
  reviewed false = "Human reviewer declined; choose another approach."

  -- One call under the decision of a human that is for it, if there is one; no message where the
  -- run has to wait.
  unfoldable pub one_call :
      ToolCall → Option Bool → World Args (Unit {0}) → World Args (Unit {0}) × Option Message
  unfolding reviewed
  one_call c decision w =
      if str_eq c.name review_tool && a.ask_when_uncertain
      then elim decision [ none ↦ (w, none) | some ok ↦ (w, some (says_tool c (reviewed ok))) ]
      else elim decision [
        | none ↦ if any (str_eq c.name) a.approval_tools then (w, none) else attempt c false w
        | some true ↦ attempt c true w
        | some false ↦ (w, some (says_tool c "Denied by human reviewer; do not retry this call."))
      ]

  -- `_tools`: the messages after it, and the calls that wait for a human.
  unfoldable pub run_tools :
      List ToolCall
      → Option Bool
      → List Message
      → World Args (Unit {0})
      → World Args (Unit {0}) × List Message × List ToolCall
  run_tools [] decision ms w = (w, ms, [])
  run_tools (c ∷ cs) decision ms w =
      let r = one_call c decision w in
      elim r.1 [ none ↦ (r.0, ms, c ∷ cs) | some m ↦ run_tools cs none (ms ++ (m ∷ [])) r.0 ]
