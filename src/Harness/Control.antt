-- ===== src/Harness/Control.antt =====
-- src/harness/runner.py: what a caller can do to a run between and during its executions - create,
-- run, resume, pause, cancel and kill.
pub mod Final
pub mod Killed
use text.Mathlib.Text.{◌==◌ as str_eq}
use core_ai_protocol_suite.Prelude.{
  ℕ, zero, suc, ◌+◌, String, Bool, true, false, Option, none, some, List, [], ◌∷◌, if◌then◌else◌,
}
use core_ai_protocol_suite.Harness.Context.{user_says}
use core_ai_protocol_suite.Harness.Store.{
  Status, running, paused, waiting_approval, completed, cancelled, failed, idle, pause, cancel,
  Reason, by_cancel, by_kill, Run, RunStore, create, get, update, request, kill_all, is_active,
  is_of,
}
use core_ai_protocol_suite.Harness.Runner.{Outside, AgentDef, Authority, State}
use core_ai_protocol_suite.Harness.Loop.{Ending, not_found, execute}

-- Neither running nor ended.
abbrev pub is_idle : Status → Bool
is_idle paused = true
is_idle waiting_approval = true
is_idle _ = false

-- `_finish`, of a run that is cancelled for the reason.
abbrev pub finished : Reason → Run → Run
finished reason r = record r { status = cancelled; stop_reason = some reason; control = idle }

-- `cancel`: the store after it, and whether the run takes it.
unfoldable pub cancel_run : String → RunStore → RunStore × Bool
unfolding get update request
cancel_run id s = elim (get id s) [
  | none ↦ (request id cancel s, false)
  | some r ↦
      if is_idle r.status
      then (update id (finished by_cancel) s, true)
      else (request id cancel s, is_active r.status)
]

-- `pause`
unfoldable pub pause_run : String → RunStore → RunStore × Bool
unfolding get request
pause_run id s =
    (request id pause s, elim (get id s) [ none ↦ false | some r ↦ is_active r.status ])

-- The loop of `kill` over the runs listed.
unfoldable pub finish_idle : Option String → RunStore → RunStore
finish_idle owner [] = []
finish_idle owner ((j, r) ∷ s) =
    let rest = finish_idle owner s in
    let r2 : Run = elim (is_of owner r) [
      | true ↦ if is_idle r.status then finished by_kill r else r
      | false ↦ r
    ] in
    (j, r2) ∷ rest

-- `kill`: the signal to every active run, and the end of those that are idle.
unfoldable pub kill_runs : Option String → RunStore → RunStore
unfolding kill_all finish_idle
kill_runs owner s = finish_idle owner (kill_all owner s)

-- `create`; the deadline is `deadline_s` from now, where that is set and not 0.
abbrev pub deadline_from : ℕ → Option ℕ → Option ℕ
deadline_from now none = none
deadline_from now (some n) = elim n [ zero ↦ none | suc m ↦ some (now + suc m) ]

unfoldable pub create_run : String → ℕ → String → Option ℕ → String → String → RunStore → RunStore
unfolding create
create_run id now agent deadline_s task owner s =
    create id agent owner (user_says task ∷ []) (deadline_from now deadline_s) s

-- How a call of `resume` comes back; `refused` is its ValueError.
pub data Resumed : Type 0 where
  ended : Ending → Resumed
  refused : Resumed

abbrev pub is_unanswered : Status → Option Bool → Bool
is_unanswered waiting_approval none = true
is_unanswered _ _ = false

-- `resume`
unfoldable pub resume :
    {Args : Type 0}
    → Outside Args
    → (String → Option AgentDef)
    → Authority
    → String
    → Option Bool
    → State Args
    → State Args × Resumed
unfolding get execute
resume out agents who id approve s = elim (get id s.store) [
  | none ↦ (s, ended not_found)
  | some r ↦
      let t = execute out agents who id approve s in
      if is_unanswered r.status approve then (s, refused) else (t.0, ended t.1)
]
