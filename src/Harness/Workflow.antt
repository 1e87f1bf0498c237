-- ===== src/Harness/Workflow.antt =====
-- src/harness/workflow.py: workflows of fixed steps, `_fill` and `run_workflow`.
--
-- `string.Template` is the library's: `substitute` is what it makes of a text and the values. The
-- values of a prompt are kept with the prompt in place of its text, and a value is labelled as
-- untrusted by a constructor. The model's answers are an environment, indexed by the calls of
-- `route` before, of which `none` is an exception. Costs are natural numbers of a small unit.
pub mod Parse
pub mod Prompts
pub mod Calls
pub mod Steps
mod Tests
use text.Mathlib.Text.{◌==◌ as str_eq}
use core_ai_protocol_suite.Prelude.{
  ℕ, ◌+◌, suc, String, String-discrete, Bool, true, false, ◌&&◌, ◌||◌, Option, none, some, is_some,
  List, [], ◌∷◌, ◌++◌, length, leb, contains,
}
use core_ai_protocol_suite.Dict.{Dict}
use core_ai_protocol_suite.Dict
use core_ai_protocol_suite.Conversation.{Content, words, untrusted}
use core_ai_protocol_suite.Tools.{
  Permission, Code, approval_required, Handled, ToolRegistry, Called, completed, failed, call,
}

-- Templates of arguments: JSON values, where `other` is a number, a truth value or null.
mutual
  pub data Json : Type 0 where
    str other : String → Json
    object : Fields → Json
    items : Jsons → Json

  pub data Fields : Type 0 where
    no_fields : Fields
    field : String → Json → Fields → Fields

  pub data Jsons : Type 0 where
    no_items : Jsons
    item : Json → Jsons → Jsons

-- _fill
mutual
  pub fill : (String → String) → Json → Json
  fill substitute (str s) = str (substitute s)
  fill substitute (other s) = other s
  fill substitute (object fs) = object (fill_fields substitute fs)
  fill substitute (items js) = items (fill_items substitute js)

  pub fill_fields : (String → String) → Fields → Fields
  fill_fields substitute no_fields = no_fields
  fill_fields substitute (field k j fs) = field k (fill substitute j) (fill_fields substitute fs)

  pub fill_items : (String → String) → Jsons → Jsons
  fill_items substitute no_items = no_items
  fill_items substitute (item j js) = item (fill substitute j) (fill_items substitute js)

pub data Kind : Type 0 where
  tool_step model_step : Kind

pub record Step : Type 0 where
  pub id : String
  pub kind : Kind
  pub tool : String
  pub args : Json
  pub prompt : String
  pub model : Option String

pub or_empty : Option String → String
or_empty none = ""
or_empty (some s) = s

pub record Answer : Type 0 where
  pub content : Option String
  pub cost : Option ℕ

-- A prompt and the values that it is filled with.
pub record Prompt : Type 0 where
  pub step : String
  pub template : String
  pub values : Dict String Content
  pub model : Option String

pub record Env : Type 0 where
  pub handled : ℕ → Handled
  pub clock : ℕ → ℕ
  pub substitute : Dict String String → String → String
  pub route : ℕ → Option Answer

-- The arguments of `run_workflow` that do not change.
pub record Grant : Type 0 where
  pub allowed : Option (List String)
  pub caller : String
  pub approved : List String
  pub max_permission : Permission
  pub max_cost : Option ℕ

pub record StepRecord : Type 0 where
  pub id : String
  pub kind : Kind
  pub ok : Bool

pub data Status : Type 0 where
  completed_ failed_ needs_approval cost_limit : Status

-- The variables of the loop; `sent` is what `route` was given, the newest first, and `reads` counts
-- the readings of the clock.
pub record Progress : Type 0 where
  pub registry : ToolRegistry Json
  pub reads : ℕ
  pub raw : Dict String String
  pub safe : Dict String Content
  pub steps : List StepRecord
  pub cost : ℕ
  pub sent : List Prompt

pub record Outcome : Type 0 where
  pub status : Status
  pub failed_step : Option String
  pub result : Option String

pub or_zero : Option ℕ → ℕ
or_zero none = 0
or_zero (some n) = n

unfoldable pub note : Step → Bool → Progress → Progress
note st ok p = record p { steps = p.steps ++ record { id = st.id; kind = st.kind; ok = ok } ∷ [] }

unfoldable pub learn : Step → String → Content → Progress → Progress
learn st plain labelled p = record p {
  raw = Dict.put String-discrete st.id plain p.raw;
  safe = Dict.put String-discrete st.id labelled p.safe;
}

stop_for : Code → Status
stop_for approval_required = needs_approval
stop_for _ = failed_

after_tool : Step → Called → Progress → Progress × Option Status
unfolding note learn stop_for
after_tool st (completed s) p = (note st true (learn st s (untrusted s st.tool) p), none)
after_tool st (failed code) p = (note st false p, some (stop_for code))

after_model : Step → Option Answer → Progress → Progress × Option Status
unfolding note learn or_empty or_zero
after_model st none p = (note st false p, some failed_)
after_model st (some a) p = (
  note st true (
      learn st (or_empty a.content) (words (or_empty a.content))
        (record p { cost = p.cost + or_zero a.cost })),
  none,
)

module _ (env : Env) (g : Grant) where
  run_step : Kind → Step → Progress → Progress × Option Status
  unfolding after_tool after_model
  run_step tool_step st p =
      let r =
        call env.handled (env.clock p.reads) st.tool (some (fill (env.substitute p.raw) st.args))
          g.allowed g.caller (contains st.id g.approved) g.max_permission p.registry in
      after_tool st r.1 (record p { registry = r.0; reads = suc p.reads })
  run_step model_step st p = after_model st (env.route (length p.sent)) (record p {
    sent =
        record { step = st.id; template = st.prompt; values = p.safe; model = st.model } ∷ p.sent;
  })

over : Option ℕ → ℕ → Bool
over none cost = false
over (some limit) cost = leb limit cost

ended : Status → Option String → Option String → Outcome
ended status step result = record { status = status; failed_step = step; result = result }

unfoldable pub begin : String → ToolRegistry Json → Progress
begin input registry = record {
  registry = registry;
  reads = 0;
  raw = ("input", input) ∷ [];
  safe = ("input", words input) ∷ [];
  steps = [];
  cost = 0;
  sent = [];
}

module _ (env : Env) (g : Grant) where
  -- The loop over the steps; `last` is the id of the last step before them.
  unfoldable pub run_from : List Step → Option String → Progress → Progress × Outcome
  unfolding run_step over ended
  run_from [] none p = (p, ended completed_ none none)
  run_from [] (some id) p = (p, ended completed_ none (Dict.get String-discrete id p.raw))
  run_from (st ∷ rest) last p = elim (over g.max_cost p.cost) [
    | true ↦ (p, ended cost_limit (some st.id) none)
    | false ↦
        let r = run_step env g st.kind st p in
        elim r.1 [
          | some status ↦ (r.0, ended status (some st.id) none)
          | none ↦ run_from rest (some st.id) r.0
        ]
  ]

  -- run_workflow; the result is missing where there are no steps, where the source raises.
  unfoldable pub run_workflow : List Step → String → ToolRegistry Json → Progress × Outcome
  unfolding run_from begin
  run_workflow steps input registry = run_from steps none (begin input registry)
