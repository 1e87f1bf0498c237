-- ===== src/Harness/Workflow/Tests.antt =====
-- A workflow that looks a page up and has a model sum it up (harness/workflow.py), and instances of
-- the theorems.
use core_ai_protocol_suite.Harness.Workflow.Parse.Ids.{IsAccepted, parse_steps-IsAccepted}
use core_ai_protocol_suite.Harness.Workflow.Parse.{Entry, parse_steps}
use mathlib.Core.Option.{some-injective}
use core_ai_protocol_suite.Prelude.{
  ap, ◌+◌, ◌≤◌, ◌≡◌, refl, true, none, some, List, [], ◌∷◌, All, arith,
}
use core_ai_protocol_suite.Tools.{read_only, write, Tool, output, ToolRegistry}
use core_ai_protocol_suite.Harness.Workflow.{
  or_zero, Json, str, object, no_fields, field, Step, tool_step, model_step, Answer, Env, Grant,
  run_workflow,
}
use core_ai_protocol_suite.Harness.Workflow.Prompts.{Among, AllSafe, run_workflow-AllSafe}
use core_ai_protocol_suite.Harness.Workflow.Steps.{Reports, run_workflow-Reports}
use core_ai_protocol_suite.Harness.Workflow.Calls.{
  Cheap, run_workflow-cost, Issues, run_workflow-Issues,
}

abbrev look : Step
look = record {
  id = "page";
  kind = tool_step;
  tool = "fetch";
  args = object (field "url" (str "${input}") no_fields);
  prompt = "";
  model = none;
}

abbrev sum_up : Step
sum_up = record {
  id = "summary";
  kind = model_step;
  tool = "";
  args = object no_fields;
  prompt = "Sum up: ${page}";
  model = none;
}

abbrev both : List Step
both = look ∷ sum_up ∷ []

abbrev fetch : Tool Json
fetch = record { name = "fetch"; schema = λ _. true; permission = read_only; rate_per_minute = 10 }

abbrev tools : ToolRegistry Json
tools = record { tools = ("fetch", fetch) ∷ []; hits = []; ran = [] }

abbrev world : Env
world = record {
  handled = λ _. output "a page";
  clock = λ n. n;
  substitute = λ values s. s;
  route = λ _. some (record { content = some "a summary"; cost = some 3 });
}

abbrev grant : Grant
grant = record {
  allowed = none;
  caller = "workflow";
  approved = [];
  max_permission = write;
  max_cost = some 10;
}

run_workflow-AllSafe_example :
    All
      (AllSafe world grant "a url" (λ st. Among st both))
      (run_workflow world grant both "a url" tools).0.sent
run_workflow-AllSafe_example = run_workflow-AllSafe world grant both "a url" tools

run_workflow-Reports_example :
    Reports both
      (run_workflow world grant both "a url" tools).0.steps
      (run_workflow world grant both "a url" tools).1.status
      (run_workflow world grant both "a url" tools).1.failed_step
run_workflow-Reports_example = run_workflow-Reports world grant both "a url" tools

always_three : Cheap world 3
unfolding or_zero
always_three n a e =
    let same : 3 ≡ or_zero a.cost = ap (λ (z : Answer). or_zero z.cost) (some-injective _ _ e) in
    omega (arith, same)

run_workflow-cost_example : (run_workflow world grant both "a url" tools).0.cost ≤ 10 + 3
run_workflow-cost_example = run_workflow-cost world grant 10 3 both "a url" tools always_three refl

run_workflow-Issues_example :
    Issues world grant tools both tools.ran (run_workflow world grant both "a url" tools).0.registry
run_workflow-Issues_example = run_workflow-Issues world grant both "a url" tools

abbrev entries : List Entry
entries =
    record { id = some "page"; tool = some "fetch"; args = none; prompt = none; model = none } ∷ []

parse_steps-IsAccepted_example : IsAccepted (parse_steps entries)
parse_steps-IsAccepted_example = parse_steps-IsAccepted entries
