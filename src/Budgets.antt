-- ===== src/Budgets.antt =====
-- src/coreai/budgets.py: BudgetLimits and BudgetManager.
--
-- Costs are natural numbers of a small unit and never negative, so that `max(0.0, cost)` is the
-- cost. The usage object that `_current` returns is the one in the table, so a change to it is a
-- write to the table. `on_alert` is whether a callback is set; the events it was given are the list
-- `events`, newest first, of which the key and the kind are kept. Reports are left out.
use Prim.Native.String.{◌++◌ as append}
use core_ai_protocol_suite.Dict
use core_ai_protocol_suite.Dict.{Dict}
use core_ai_protocol_suite.Prelude.{
  ℕ, ◌+◌, ◌-◌, ◌%◌, max, String, String-discrete, Bool, true, false, ◌&&◌, ◌||◌, not, Option, none,
  some, List, [], ◌∷◌, length, leb, ltb, ◌==◌, any, if◌then◌else◌,
}

pub record BudgetLimits : Type 0 where
  pub max_cost : Option ℕ
  pub warn_cost : Option ℕ
  pub max_requests : Option ℕ
  pub max_tokens : Option ℕ
  pub window_seconds : ℕ

-- `__post_init__`, what is not the type of its fields.
unfoldable pub is_valid : BudgetLimits → Bool
is_valid l = elim l.warn_cost [
  | none ↦ leb 1 l.window_seconds
  | some warn ↦ elim l.max_cost [
    | none ↦ leb 1 l.window_seconds
    | some cap ↦ leb 1 l.window_seconds && leb warn cap
  ]
]

pub data Alert : Type 0 where
  warning exceeded : Alert

abbrev pub is_same : Alert → Alert → Bool
is_same warning warning = true
is_same exceeded exceeded = true
is_same _ _ = false

-- `_Usage`
pub record Usage : Type 0 where
  pub window_start : ℕ
  pub cost : ℕ
  pub requests : ℕ
  pub tokens : ℕ
  pub alerted : List Alert

pub record BudgetManager : Type 0 where
  pub default : Option BudgetLimits
  pub subjects : Dict String BudgetLimits
  pub models : Dict String BudgetLimits
  pub max_subjects : ℕ
  pub usage : Dict String Usage
  pub rejections : ℕ
  pub on_alert : Bool
  pub events : List (String × Alert)

unfoldable pub init :
    Option BudgetLimits
    → Dict String BudgetLimits
    → Dict String BudgetLimits
    → ℕ
    → Bool
    → Option BudgetManager
init default subjects models max_subjects on_alert =
    if leb 1 max_subjects
    then some (record {
      default = default;
      subjects = subjects;
      models = models;
      max_subjects = max_subjects;
      usage = [];
      rejections = 0;
      on_alert = on_alert;
      events = [];
    })
    else none

-- The start of the window that holds the time.
abbrev pub window_of : BudgetLimits → ℕ → ℕ
window_of l now = now - now % l.window_seconds

abbrev pub fresh : ℕ → Usage
fresh start = record { window_start = start; cost = 0; requests = 0; tokens = 0; alerted = [] }

-- The entry that `_current` finds or makes.
abbrev pub entry_for : ℕ → Option Usage → Usage
entry_for start none = fresh start
entry_for start (some u) = if u.window_start == start then u else fresh start

unfoldable pub trim : ℕ → Dict String Usage → Dict String Usage
trim limit [] = []
trim limit (e ∷ d) = let rest = trim limit d in if ltb limit (length (e ∷ d)) then rest else e ∷ d

-- `_current`: the table, with the entry at its end, and the entry.
unfoldable pub current : String → BudgetLimits → ℕ → BudgetManager → BudgetManager × Usage
unfolding trim
current key l now m =
    let u = entry_for (window_of l now) (Dict.get String-discrete key m.usage) in
    (
      record m {
        usage =
            trim m.max_subjects
              (Dict.move_to_end String-discrete key (Dict.put String-discrete key u m.usage));
      },
      u,
    )

unfoldable pub store : String → Usage → BudgetManager → BudgetManager
store key u m = record m { usage = Dict.put String-discrete key u m.usage }

-- `_alert`
unfoldable pub alert : String → Alert → Usage → BudgetManager → BudgetManager
unfolding store
alert key kind u m =
    if not m.on_alert || any (is_same kind) u.alerted
    then m
    else store key (record u { alerted = kind ∷ u.alerted })
        (record m { events = (key, kind) ∷ m.events })

-- `_warn_check`
unfoldable pub warn_check : String → BudgetLimits → Usage → BudgetManager → BudgetManager
unfolding alert
warn_check key l u m = elim l.warn_cost [
  | none ↦ m
  | some warn ↦ if leb warn u.cost then alert key warning u m else m
]

abbrev pub limits_for : String → BudgetManager → Option BudgetLimits
limits_for subject m = elim (Dict.get String-discrete subject m.subjects) [
  | none ↦ m.default
  | some l ↦ some l
]

unfoldable pub set_limits : String → BudgetLimits → BudgetManager → BudgetManager
set_limits subject l m = record m {
  subjects = Dict.put String-discrete subject l m.subjects;
  usage = Dict.remove String-discrete subject m.usage;
}

unfoldable pub remove_limits : String → BudgetManager → BudgetManager × Bool
remove_limits subject m = (
  record m {
    subjects = Dict.remove String-discrete subject m.subjects;
    usage = Dict.remove String-discrete subject m.usage;
  },
  Dict.has String-discrete subject m.subjects,
)

abbrev pub model_key : String → String
model_key model = append "\0model:" model

-- What is used of a limit: the names that `_check` gives.
pub data Limit : Type 0 where
  requests tokens cost_usd : Limit

-- What `_check` comes to: nothing, or BudgetExceeded with the limit, the usage, the cap and the wait.
pub data Checked : Type 0 where
  allowed : Checked
  refused : Limit → ℕ → ℕ → ℕ → Checked

-- The test of one limit; `none` for the cap is no limit.
abbrev pub blocks : ℕ → Option ℕ → ℕ → Bool
blocks used none extra = false
blocks used (some cap) extra = ltb cap (used + extra) || (extra == 0 && leb cap used)

abbrev pub cap_of : Option ℕ → ℕ
cap_of none = 0
cap_of (some cap) = cap

-- The first limit that blocks the request, in the order of `checks`.
unfoldable pub blocking : BudgetLimits → ℕ → ℕ → Usage → Checked
blocking l retry estimated u =
    if blocks u.requests l.max_requests 1
    then refused requests u.requests (cap_of l.max_requests) retry
    else if blocks u.tokens l.max_tokens 0
    then refused tokens u.tokens (cap_of l.max_tokens) retry
    else if blocks u.cost l.max_cost estimated
    then refused cost_usd u.cost (cap_of l.max_cost) retry
    else allowed

after_check : String → Usage → BudgetManager × Checked → BudgetManager × Checked
unfolding alert
after_check key u (m, allowed) = (m, allowed)
after_check key u (m, refused limit used cap retry) = (
  alert key exceeded u (record m { rejections = m.rejections + 1 }),
  refused limit used cap retry,
)

-- `_check`, at its two readings of the clock.
unfoldable pub check_key :
    String → BudgetLimits → ℕ → ℕ → ℕ → BudgetManager → BudgetManager × Checked
unfolding current blocking after_check
check_key key l estimated now later m =
    let r = current key l now m in
    after_check key r.1
      (r.0, blocking l (max 1 (r.1.window_start + l.window_seconds - later)) estimated r.1)

-- `check`
unfoldable pub check : String → ℕ → ℕ → ℕ → BudgetManager → BudgetManager × Checked
unfolding check_key
check subject estimated now later m = elim (limits_for subject m) [
  | none ↦ (m, allowed)
  | some l ↦ check_key subject l estimated now later m
]

-- `check_model`; no name of a model is the empty text.
unfoldable pub check_model : String → ℕ → ℕ → BudgetManager → BudgetManager × Checked
unfolding check_key
check_model model now later m = elim (Dict.get String-discrete model m.models) [
  | none ↦ (m, allowed)
  | some l ↦ check_key (model_key model) l 0 now later m
]

-- What a request adds to the usage: a count, its cost and its tokens.
abbrev pub plus : ℕ → ℕ → ℕ → Usage → Usage
plus n cost spent u = record u {
  requests = u.requests + n;
  cost = u.cost + cost;
  tokens = u.tokens + spent;
}

unfoldable pub add_to : String → BudgetLimits → ℕ → ℕ → ℕ → ℕ → BudgetManager → BudgetManager
unfolding current store warn_check
add_to key l n cost spent now m =
    let r = current key l now m in
    let u = plus n cost spent r.1 in warn_check key l u (store key u r.0)

-- `record`
unfoldable pub record_usage : String → ℕ → ℕ → ℕ → BudgetManager → BudgetManager
unfolding add_to
record_usage subject cost spent now m = elim (limits_for subject m) [
  | none ↦ m
  | some l ↦ add_to subject l 1 cost spent now m
]

-- `add_usage`
unfoldable pub add_usage : String → ℕ → ℕ → ℕ → BudgetManager → BudgetManager
unfolding add_to
add_usage subject cost spent now m = elim (limits_for subject m) [
  | none ↦ m
  | some l ↦ add_to subject l 0 cost spent now m
]

-- `record_model`
unfoldable pub record_model : String → ℕ → ℕ → ℕ → ℕ → BudgetManager → BudgetManager
unfolding add_to
record_model model cost spent n now m = elim (Dict.get String-discrete model m.models) [
  | none ↦ m
  | some l ↦ add_to (model_key model) l n cost spent now m
]
