-- ===== src/Tools/Tests.antt =====
-- A registry with one tool, called twice a minute at most (tools/registry.py), and instances of the
-- theorems.
use core_ai_protocol_suite.Prelude.{ℕ, ◌+◌, true, List, [], ◌∷◌, arith}
use core_ai_protocol_suite.Tools.{destructive, Tool, Handled, output, ToolRegistry, minute}
use core_ai_protocol_suite.Tools.Windows.{Check, History, answers, answers-refine}

abbrev check_at : ℕ → Check
check_at now = record { key = ("ops", "deploy"); rate = 2; now = now }

abbrev checks : List Check
checks = check_at 1 ∷ check_at 2 ∷ check_at 3 ∷ check_at (minute + 1) ∷ []

answers-refine_example : History (λ _. []) checks (answers checks [])
answers-refine_example = answers-refine checks (ground arith)

abbrev deploy : Tool ℕ
deploy = record {
  name = "deploy";
  schema = λ _. true;
  permission = destructive;
  rate_per_minute = 2;
}

abbrev pub registry : ToolRegistry ℕ
registry = record { tools = ("deploy", deploy) ∷ []; hits = []; ran = [] }

abbrev done : ℕ → Handled
done _ = output "done"
