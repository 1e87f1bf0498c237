-- ===== src/Tools.antt =====
-- src/tools/registry.py: the tool registry, its checks before a call, and its rate limits.
--
-- `Args` is the type of decoded argument objects. A tool's schema is the test that
-- `jsonschema.validate` makes of its arguments; what handlers do is an environment, indexed by the
-- number of calls of handlers before. Those calls are the list `ran`, newest first. Texts are
-- measured by the library's length; times are natural numbers, and `minute` is 60 seconds of them.
-- Tracing, the audit hook, the JSON rendering of results that are no text and the cut of long ones
-- are left out.
pub mod Rate
pub mod Sweeping
pub mod Windows
pub mod Guards
pub mod Tests
use core_ai_protocol_suite.Dict
use core_ai_protocol_suite.Dict.{Dict}
use core_ai_protocol_suite.Prelude.{
  ℕ, ◌+◌, String, String-discrete, Pair-discrete, Bool, true, false, not, ◌&&◌, ◌||◌, Option, none,
  some, List, [], ◌∷◌, ◌++◌, length, any, leb, ltb, ◌==◌, if◌then◌else◌,
}
use text.Mathlib.Text.{◌==◌ as str_eq}

pub data Permission : Type 0 where
  read_only write destructive : Permission

-- The order of the `IntEnum`.
abbrev pub level : Permission → ℕ
level read_only = 0
level write = 1
level destructive = 2

abbrev pub is_destructive : Permission → Bool
is_destructive destructive = true
is_destructive _ = false

-- The `code` of a `ToolError`; `own` is one that a handler raises.
pub data Code : Type 0 where
  unknown_tool not_allowed permission_denied invalid_arguments approval_required : Code
  rate_limited rate_limit_capacity timeout tool_failed : Code
  own : String → Code

pub record Tool (Args : Type 0) : Type 0 where
  pub name : String
  pub schema : Args → Bool
  pub permission : Permission
  pub rate_per_minute : ℕ

-- A call of a handler.
pub record Execution (Args : Type 0) : Type 0 where
  pub tool : String
  pub arguments : Args
  pub caller : String
  pub approved : Bool
  pub permission : Permission

-- What a handler does under its timeout.
pub data Handled : Type 0 where
  output : String → Handled
  timed_out crashed : Handled
  tool_error : Code → Handled

-- `_hits` maps (caller, tool) to the times of its calls, the oldest first.
pub record ToolRegistry (Args : Type 0) : Type 0 where
  pub tools : Dict String (Tool Args)
  pub hits : Dict (String × String) (List ℕ)
  pub ran : List (Execution Args)

abbrev pub minute : ℕ
minute = 60_000_000

abbrev pub max_rate_limit_keys : ℕ
max_rate_limit_keys = 10_000

unfoldable pub init : {Args : Type 0} → ToolRegistry Args
init = record { tools = []; hits = []; ran = [] }

-- `register`; the tests on the name and the schema are the first argument, and `none` is a
-- ValueError.
unfoldable pub register :
    {Args : Type 0} → Bool → Tool Args → Bool → ToolRegistry Args → Option (ToolRegistry Args)
register valid tool replace r =
    if not valid
    then none
    else if Dict.has String-discrete tool.name r.tools && not replace
    then none
    else some (record r { tools = Dict.put String-discrete tool.name tool r.tools })

unfoldable pub unregister : {Args : Type 0} → String → ToolRegistry Args → ToolRegistry Args
unregister name r = record r { tools = Dict.remove String-discrete name r.tools }

-- `"*" in allow or name in allow`; `none` allows nothing.
unfoldable pub allows : Option (List String) → String → Bool
allows none name = false
allows (some names) name = any (λ n. str_eq n "*" || str_eq n name) names

-- The `while` loop of `_check_rate`.
unfoldable pub prune : ℕ → List ℕ → List ℕ
prune now [] = []
prune now (t ∷ ts) = let rest = prune now ts in if leb (t + minute) now then rest else t ∷ ts

-- `not old_hits or now - old_hits[-1] >= 60`
unfoldable pub stale : ℕ → List ℕ → Bool
stale now [] = true
stale now (t ∷ []) = leb (t + minute) now
stale now (t ∷ u ∷ ts) = stale now (u ∷ ts)

unfoldable pub sweep : ℕ → Dict (String × String) (List ℕ) → Dict (String × String) (List ℕ)
sweep now [] = []
sweep now ((k, ts) ∷ d) = let rest = sweep now d in if stale now ts then rest else (k, ts) ∷ rest

unfoldable pub make_room : ℕ → Dict (String × String) (List ℕ) → Dict (String × String) (List ℕ)
make_room now d = if leb max_rate_limit_keys (length d) then sweep now d else d

-- The window of one key: its hits after the call, and whether the call is let through.
unfoldable pub admit : ℕ → ℕ → List ℕ → List ℕ × Bool
admit rate now ts =
    let live = prune now ts in
    if leb rate (length live) then (live, false) else (live ++ (now ∷ []), true)

put_window :
    String × String
    → Dict (String × String) (List ℕ)
    → List ℕ × Bool
    → Dict (String × String) (List ℕ) × Option Code
put_window key d (ts, true) = (Dict.put Pair-discrete key ts d, none)
put_window key d (ts, false) = (Dict.put Pair-discrete key ts d, some rate_limited)

check_window :
    Option (List ℕ)
    → String × String
    → ℕ
    → ℕ
    → Dict (String × String) (List ℕ)
    → Dict (String × String) (List ℕ) × Option Code
unfolding put_window
check_window (some ts) key rate now d = put_window key d (admit rate now ts)
check_window none key rate now d =
    let q = make_room now d in
    if leb max_rate_limit_keys (length q)
    then (q, some rate_limit_capacity)
    else put_window key q (admit rate now [])

-- `_check_rate`: the table after it, and the code of the error it raises, if it does.
unfoldable pub check_rate :
    String × String
    → ℕ
    → ℕ
    → Dict (String × String) (List ℕ)
    → Dict (String × String) (List ℕ) × Option Code
unfolding check_window
check_rate key rate now d =
    if rate == 0 then (d, none) else check_window (Dict.get Pair-discrete key d) key rate now d

pub data Called : Type 0 where
  completed : String → Called
  failed : Code → Called

unfoldable pub outcome_of : Handled → Called
outcome_of (output text) = completed text
outcome_of timed_out = failed timeout
outcome_of crashed = failed tool_failed
outcome_of (tool_error code) = failed code

module _ {Args : Type 0} where
  -- The checks of `_call` before the rate limit: the code of the first that fails. `none` for the
  -- arguments is a value that is no object.
  unfoldable pub refusal :
      Option (List String) → Bool → Permission → Option Args → Tool Args → String → Option Code
  refusal allowed approved max_permission none t name =
      if not (allows allowed name)
      then some not_allowed
      else if ltb (level max_permission) (level t.permission)
      then some permission_denied
      else some invalid_arguments
  refusal allowed approved max_permission (some args) t name =
      if not (allows allowed name)
      then some not_allowed
      else if ltb (level max_permission) (level t.permission)
      then some permission_denied
      else if not (t.schema args)
      then some invalid_arguments
      else if is_destructive t.permission && not approved
      then some approval_required
      else none

  -- The handler is called.
  unfoldable pub execute :
      (ℕ → Handled) → Execution Args → ToolRegistry Args → ToolRegistry Args × Called
  unfolding outcome_of
  execute env x r = (record r { ran = x ∷ r.ran }, outcome_of (env (length r.ran)))

  -- From the rate limit on.
  unfoldable pub call_checked :
      (ℕ → Handled)
      → Execution Args
      → Dict (String × String) (List ℕ) × Option Code
      → ToolRegistry Args
      → ToolRegistry Args × Called
  unfolding execute
  call_checked env x (d, some code) r = (record r { hits = d }, failed code)
  call_checked env x (d, none) r = execute env x (record r { hits = d })

  unfoldable pub call_tool :
      (ℕ → Handled)
      → ℕ
      → Tool Args
      → String
      → Option Args
      → Option (List String)
      → String
      → Bool
      → Permission
      → ToolRegistry Args
      → ToolRegistry Args × Called
  call_tool env now t name none allowed caller approved max_permission r =
      elim (refusal allowed approved max_permission none t name) [
        | some code ↦ (r, failed code)
        | none ↦ (r, failed invalid_arguments)
      ]
  call_tool env now t name (some args) allowed caller approved max_permission r =
      elim (refusal allowed approved max_permission (some args) t name) [
        | some code ↦ (r, failed code)
        | none ↦
            call_checked env
              (record {
                tool = name;
                arguments = args;
                caller = caller;
                approved = approved;
                permission = t.permission;
              })
              (check_rate (caller, t.name) t.rate_per_minute now r.hits) r
      ]

  -- `call`, at the clock's reading for the rate limit.
  unfoldable pub call :
      (ℕ → Handled)
      → ℕ
      → String
      → Option Args
      → Option (List String)
      → String
      → Bool
      → Permission
      → ToolRegistry Args
      → ToolRegistry Args × Called
  call env now name arguments allowed caller approved max_permission r =
      elim (Dict.get String-discrete name r.tools) [
        | none ↦ (r, failed unknown_tool)
        | some t ↦ call_tool env now t name arguments allowed caller approved max_permission r
      ]
