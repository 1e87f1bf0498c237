-- ===== src/Harness/Store.antt =====
-- src/harness/store.py: the rows of the runs, and the writes to them.
--
-- The table is an ordered dictionary of rows by id; one UPDATE, or one transaction, is one step,
-- and an UPDATE of a row that is not there changes nothing. New ids are given by the caller. The
-- trace of events, the timestamps and the history of workflows, which no write here reads, are left
-- out.
pub mod Control
use text.Mathlib.Text.{◌==◌ as str_eq}
use core_ai_protocol_suite.Dict
use core_ai_protocol_suite.Dict.{Dict}
use core_ai_protocol_suite.Prelude.{
  ℕ, ◌+◌, String, String-discrete, Bool, true, false, ◌&&◌, Option, none, some, List, [], ◌∷◌,
  if◌then◌else◌,
}
use core_ai_protocol_suite.Conversation.{ToolCall, Message}

pub data Status : Type 0 where
  running paused waiting_approval completed cancelled failed : Status

-- The column `control`; `idle` is the empty text.
pub data Signal : Type 0 where
  idle pause cancel kill : Signal

-- The column `stop_reason`.
pub data Reason : Type 0 where
  by_pause by_cancel by_kill deadline max_steps cost_limit token_limit : Reason
  stalled answered error shutdown : Reason

pub record Run : Type 0 where
  pub agent : String
  pub owner : String
  pub status : Status
  pub stop_reason : Option Reason
  pub step : ℕ
  pub cost : ℕ
  pub input_tokens : ℕ
  pub output_tokens : ℕ
  pub control : Signal
  pub pending : Option (List ToolCall)
  pub messages : List Message
  pub result : Option String
  pub deadline : Option ℕ

abbrev pub RunStore : Type 0
RunStore = Dict String Run

-- `ACTIVE`
abbrev pub is_active : Status → Bool
is_active running = true
is_active paused = true
is_active waiting_approval = true
is_active _ = false

unfoldable pub create : String → String → String → List Message → Option ℕ → RunStore → RunStore
create id agent owner messages until s =
    Dict.put String-discrete id
      (record {
        agent = agent;
        owner = owner;
        status = running;
        stop_reason = none;
        step = 0;
        cost = 0;
        input_tokens = 0;
        output_tokens = 0;
        control = idle;
        pending = none;
        messages = messages;
        result = none;
        deadline = until;
      })
      s

unfoldable pub get : String → RunStore → Option Run
get id s = Dict.get String-discrete id s

-- An UPDATE of the row with the id: `set` and `checkpoint` with their columns.
unfoldable pub update : String → (Run → Run) → RunStore → RunStore
update id f [] = []
update id f ((j, r) ∷ s) =
    let rest = update id f s in if str_eq j id then (j, f r) ∷ rest else (j, r) ∷ rest

-- The columns of `state` in a checkpoint.
pub record Progress : Type 0 where
  pub step : ℕ
  pub cost : ℕ
  pub input_tokens : ℕ
  pub output_tokens : ℕ

abbrev pub saved : List Message → Progress → Run → Run
saved ms p r = record r {
  messages = ms;
  step = p.step;
  cost = p.cost;
  input_tokens = p.input_tokens;
  output_tokens = p.output_tokens;
}

abbrev pub signalled : Signal → Run → Run
signalled c r = if is_active r.status then record r { control = c } else r

-- `request`: only an active run takes the signal.
unfoldable pub request : String → Signal → RunStore → RunStore
unfolding update
request id c s = update id (signalled c) s

-- `kill`: every active run, of one owner or of all; an empty owner is none.
abbrev pub is_of : Option String → Run → Bool
is_of none r = true
is_of (some owner) r = elim (str_eq owner "") [ true ↦ true | false ↦ str_eq r.owner owner ]

unfoldable pub kill_all : Option String → RunStore → RunStore
kill_all owner [] = []
kill_all owner ((j, r) ∷ s) =
    let rest = kill_all owner s in (j, if is_of owner r then signalled kill r else r) ∷ rest

-- `interrupted`: the runs that a crash left running.
unfoldable pub interrupted : RunStore → List String
interrupted [] = []
interrupted ((j, r) ∷ s) =
    let rest = interrupted s in elim r.status [ running ↦ j ∷ rest | _ ↦ rest ]
