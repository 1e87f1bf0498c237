-- ===== src/ToolLoop/Tests.antt =====
-- A loop over one destructive tool with one approval (tools/executor.py), and instances of the
-- theorems.
use core_ai_protocol_suite.Prelude.{
  ℕ, zero, suc, ◌+◌, ◌≤◌, ◌≡◌, refl, String, false, Option, none, some, List, [], ◌∷◌, arith, All,
}
use core_ai_protocol_suite.Approvals.{ApprovalStore, approved}
use core_ai_protocol_suite.Approvals.Counts.{open_approvals}
use core_ai_protocol_suite.Conversation.{
  ToolCall, words, Message, user, validate_conversation, spoken, check_spoken, last_of,
}
use core_ai_protocol_suite.Tools.{destructive, output}
use core_ai_protocol_suite.ToolLoop.{Response, Env, Grant, World, run_tool_loop}
use core_ai_protocol_suite.ToolLoop.Safety.{Extends, run_tool_loop-Extends}
use core_ai_protocol_suite.ToolLoop.Requests.{HasId, SentWell, run_tool_loop-SentWell}
use core_ai_protocol_suite.ToolLoop.Paid.{env, paid, run_tool_loop-paid}
use core_ai_protocol_suite.Tools.Tests.{registry}

abbrev deploying : ToolCall
deploying = record { id = "call-1"; name = "deploy"; arguments = "7" }

-- The model asks for the tool once, and answers then.
abbrev responses : ℕ → Option Response
responses zero = some (record {
  content = "";
  tool_calls = deploying ∷ [];
  cost = 1;
  input_tokens = 2;
  output_tokens = 3;
})
responses (suc i) = some (record {
  content = "deployed";
  tool_calls = [];
  cost = 1;
  input_tokens = 2;
  output_tokens = 3;
})

abbrev base : Env ℕ ApprovalStore
base = record {
  handled = λ _. output "done";
  clock = λ n. n;
  parse = λ _. some 7;
  approve = λ now caller name args s. (s, false);
  model = responses;
}

abbrev grant : Grant
grant = record { allowed = "deploy" ∷ []; caller = "ops"; max_permission = destructive }

abbrev store : ApprovalStore
store = record {
  ttl = 900;
  max_items = 10;
  items =
      record {
        id = "1";
        caller = "ops";
        tool = "deploy";
        arguments = "7";
        created = 0;
        status = approved;
        decided_by = some "admin";
      }
      ∷ [];
}

abbrev world : World ℕ ApprovalStore
world = record { registry = registry; approvals = store; reads = 0 }

abbrev first : List Message
first =
    record { role = user; content = words "deploy it"; tool_calls = []; tool_call_id = none } ∷ []

abbrev dumps : ℕ → String
dumps _ = "7"

run_tool_loop-Extends_example :
    Extends base grant world.registry (run_tool_loop base grant 5 none first world).0.registry
run_tool_loop-Extends_example = run_tool_loop-Extends base grant 5 none first world

names_calls : (i : ℕ) (r : Response) → responses i ≡ some r → All HasId r.tool_calls
names_calls zero r h = ground (arith, h)
names_calls (suc i) r h = ground (arith, h)

run_tool_loop-SentWell_example :
    SentWell base grant 6 (run_tool_loop base grant 5 none first world).1.sent
unfolding validate_conversation spoken check_spoken last_of
run_tool_loop-SentWell_example =
    run_tool_loop-SentWell base grant 5 none first world names_calls refl

run_tool_loop-paid_example :
    let after = (run_tool_loop (env dumps base grant) grant 5 none first world).0 in
    paid dumps base grant "ops|deploy|7" after.registry.ran
      + open_approvals "ops|deploy|7" after.approvals.items
    ≤ paid dumps base grant "ops|deploy|7" world.registry.ran
      + open_approvals "ops|deploy|7" world.approvals.items
run_tool_loop-paid_example = run_tool_loop-paid dumps base grant 5 none first world "ops|deploy|7"
