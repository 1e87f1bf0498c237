-- ===== src/Harness/Workflow/Parse.antt =====
-- src/harness/workflow.py: the steps of a workflow from its configuration, `parse_steps`.
pub mod Ids
use text.Mathlib.Text.{◌==◌ as str_eq}
use core_ai_protocol_suite.Prelude.{
  ℕ, suc, String, Bool, true, false, ◌||◌, Option, none, some, List, [], ◌∷◌, ◌++◌, contains,
}
use core_ai_protocol_suite.Harness.Workflow.{
  Json, object, no_fields, Kind, tool_step, model_step, Step, or_empty,
}

-- An entry of the configuration; `none` is a missing key.
pub record Entry : Type 0 where
  pub id : Option String
  pub tool : Option String
  pub args : Option Json
  pub prompt : Option String
  pub model : Option String

pub data Fault : Type 0 where
  bad_id : ℕ → Fault
  no_kind : ℕ → Fault
  no_steps : Fault

or_object : Option Json → Json
or_object none = object no_fields
or_object (some j) = j

kind_of : Option String → Option String → Option Kind
kind_of (some _) prompt = some tool_step
kind_of none (some _) = some model_step
kind_of none none = none

unfoldable pub bad : String → List String → Bool
bad id seen = str_eq id "" || contains id seen || str_eq id "input"

step_from : Entry → String → Kind → Step
unfolding or_empty or_object
step_from d id kind = record {
  id = id;
  kind = kind;
  tool = or_empty d.tool;
  args = or_object d.args;
  prompt = or_empty d.prompt;
  model = d.model;
}

noted : Bool → Fault → List Fault → List Fault
noted true f fs = f ∷ fs
noted false f fs = fs

with_step : Entry → String → ℕ → Option Kind → List Step × List Fault → List Step × List Fault
unfolding step_from
with_step d id i none (steps, faults) = (steps, no_kind i ∷ faults)
with_step d id i (some kind) (steps, faults) = (step_from d id kind ∷ steps, faults)

-- The loop from entry `i` on, with the ids seen before.
unfoldable pub parse_from : ℕ → List String → List Entry → List Step × List Fault
unfolding with_step noted kind_of or_empty
parse_from i seen [] = ([], [])
parse_from i seen (d ∷ ds) =
    let id = or_empty d.id in
    let rest = with_step d id i (kind_of d.tool d.prompt) (parse_from (suc i) (id ∷ seen) ds) in
    (rest.0, noted (bad id seen) (bad_id i) rest.1)

pub data Parsed : Type 0 where
  parsed : List Step → Parsed
  invalid : List Fault → Parsed

parsed_from : List Step × List Fault → Parsed
parsed_from ([], faults) = invalid (faults ++ no_steps ∷ [])
parsed_from (st ∷ steps, []) = parsed (st ∷ steps)
parsed_from (st ∷ steps, f ∷ faults) = invalid (f ∷ faults)

-- parse_steps
unfoldable pub parse_steps : List Entry → Parsed
unfolding parsed_from
parse_steps ds = parsed_from (parse_from 0 [] ds)
