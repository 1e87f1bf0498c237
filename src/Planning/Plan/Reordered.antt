-- ===== src/Planning/Plan/Reordered.antt =====
-- What the difficulty of a request does to its plan (coreai/router.py, `_apply_difficulty`).
use core_ai_protocol_suite.Prelude.{true, false, String, Option, ◌≡◌, All}
use core_ai_protocol_suite.Planning.{Difficulty, easy, hard, Planner, is_local}
use core_ai_protocol_suite.Planning.Plan.{Plan}

abbrev pub Local : Planner → String × Option String → Type 0
Local p x = is_local p x.0 ≡ true

abbrev pub Elsewhere : Planner → String × Option String → Type 0
Elsewhere p x = is_local p x.0 ≡ false

-- The candidates that a difficulty puts in front, and those behind them.
abbrev pub Leads : Planner → Difficulty → Plan → Plan → Type 0
Leads p easy first rest = All (Local p) first × All (Elsewhere p) rest
Leads p hard first rest = All (Elsewhere p) first × All (Local p) rest
