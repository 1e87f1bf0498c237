-- ===== src/Scheduler/Due.antt =====
-- When a job runs again (coreai/scheduler.py, is_due and schedule_next).
use core_ai_protocol_suite.Dict
use core_ai_protocol_suite.Prelude.{
  ℕ, ◌+◌, ◌<◌, ◌≡◌, ◌≢◌, String, String-discrete, true, false, Option, none, some, List, [], ◌∷◌,
  All, Bool, arith,
}
use core_ai_protocol_suite.Scheduler.{
  Scheduler, is_due, schedule_next, change, start, stop, register, unregister, set_enabled, enable,
  disable, begin, finish, Event, registering, unregistering, enabling, disabling, beginning,
  finishing, starting, stopping, step, run,
}

-- The event does not start a run of object `ref`.
abbrev pub IsOther : ℕ → Event → Type 0
IsOther ref (beginning r now second) = r ≢ ref
IsOther ref _ = Unit

-- Object `ref` is one of the allocated, to run next at `time`.
abbrev pub Waits : ℕ → ℕ → Scheduler → Type 0
Waits ref time s = (ref < s.allocated) × ((s.objects ref).next_run ≡ time)

set_enabled-Waits :
    (o : Option ℕ) (on : Bool) (ref time : ℕ) (s : Scheduler)
    → Waits ref time s
    → Waits ref time (set_enabled o on s)
unfolding set_enabled change
set_enabled-Waits none on ref time s w = w
set_enabled-Waits (some r) on ref time s w = ground arith

finish-Waits :
    (r : ℕ) (o : Option String) (ref time : ℕ) (s : Scheduler)
    → Waits ref time s
    → Waits ref time (finish r o s)
unfolding finish change
finish-Waits r none ref time s w = ground arith
finish-Waits r (some error) ref time s w = ground arith

step-Waits :
    (e : Event) (ref time : ℕ) (s : Scheduler)
    → IsOther ref e
    → Waits ref time s
    → Waits ref time (step e s)
unfolding step register unregister enable disable begin start stop change schedule_next
step-Waits (registering name interval run_immediately now) ref time s i w = ground arith
step-Waits (unregistering name) ref time s i w = w
step-Waits (enabling name) ref time s i w =
    set_enabled-Waits (Dict.get String-discrete name s.jobs) true ref time s w
step-Waits (disabling name) ref time s i w =
    set_enabled-Waits (Dict.get String-discrete name s.jobs) false ref time s w
step-Waits (beginning r now second) ref time s i w = ground arith
step-Waits (finishing r error) ref time s i w = finish-Waits r error ref time s w
step-Waits starting ref time s i w = w
step-Waits stopping ref time s i w = w

run-Waits :
    (es : List Event) (ref time : ℕ) (s : Scheduler)
    → All (IsOther ref) es
    → Waits ref time s
    → Waits ref time (run es s)
unfolding run
run-Waits [] ref time s i w = w
run-Waits (e ∷ es) ref time s i w =
    run-Waits es ref time (step e s) i.1 (step-Waits e ref time s i.0 w)

begin-Waits :
    (ref now second : ℕ) (s : Scheduler)
    → ref < s.allocated
    → Waits ref (second + (s.objects ref).interval_seconds) (begin ref now second s)
unfolding begin change schedule_next
begin-Waits ref now second s lt = ground arith

-- Once a run of a job has begun, the job is not due again before its whole interval has passed,
-- whatever happens in the meantime but another run of it: its end or failure, other jobs, and the
-- enabling, replacing or removal of its name.
pub run-not_due :
    (es : List Event) (ref now second time : ℕ) (s : Scheduler)
    → ref < s.allocated
    → All (IsOther ref) es
    → time < second + (s.objects ref).interval_seconds
    → is_due time ((run es (begin ref now second s)).objects ref) ≡ false
unfolding is_due
run-not_due es ref now second time s lt i before =
    let w =
      run-Waits es ref (second + (s.objects ref).interval_seconds) (begin ref now second s) i
        (begin-Waits ref now second s lt) in
    ground (arith, w.1)
