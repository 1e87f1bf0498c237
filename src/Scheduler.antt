-- ===== src/Scheduler.antt =====
-- src/coreai/scheduler.py: periodic jobs.
--
-- A `Job` is an object that a run keeps hold of while it may be replaced or removed under its name,
-- so the jobs are a store of objects by number, and `jobs` maps names to numbers. `_run_job` awaits
-- the job's function, so it is two steps: `begin` up to the call, and `finish` with its outcome.
-- Times are natural numbers, and `second` is the later of two readings of the clock. The loop's
-- task and the reports are left out.
mod Due
mod Tests
use core_ai_protocol_suite.Dict
use core_ai_protocol_suite.Dict.{Dict}
use core_ai_protocol_suite.Prelude.{
  ℕ, ◌+◌, String, String-discrete, Bool, true, false, ◌&&◌, Option, none, some, List, [], ◌∷◌, leb,
  ◌==◌, if◌then◌else◌,
}

pub record Job : Type 0 where
  pub name : String
  pub interval_seconds : ℕ
  pub last_run : Option ℕ
  pub next_run : ℕ
  pub run_count : ℕ
  pub error_count : ℕ
  pub last_error : Option String
  pub enabled : Bool

pub record Scheduler : Type 0 where
  pub objects : ℕ → Job
  pub allocated : ℕ
  pub jobs : Dict String ℕ
  pub running : Bool
  pub total_runs : ℕ
  pub total_errors : ℕ

unfoldable pub is_due : ℕ → Job → Bool
is_due now j = j.enabled && leb j.next_run now

unfoldable pub schedule_next : ℕ → Job → Job
schedule_next now j = record j { next_run = now + j.interval_seconds }

-- A change of one object.
unfoldable pub change : ℕ → (Job → Job) → Scheduler → Scheduler
change ref f s = record s { objects = λ r. if r == ref then f (s.objects r) else s.objects r }

unfoldable pub start : Scheduler → Scheduler
start s = record s { running = true }

unfoldable pub stop : Scheduler → Scheduler
stop s = record s { running = false }

unfoldable pub register : String → ℕ → Bool → ℕ → Scheduler → Scheduler
unfolding change
register name interval run_immediately now s =
    let job : Job = record {
      name = name;
      interval_seconds = interval;
      last_run = none;
      next_run = if run_immediately then now else now + interval;
      run_count = 0;
      error_count = 0;
      last_error = none;
      enabled = true;
    } in
    record (change s.allocated (λ _. job) s) {
      allocated = s.allocated + 1;
      jobs = Dict.put String-discrete name s.allocated s.jobs;
    }

unfoldable pub unregister : String → Scheduler → Scheduler
unregister name s = record s { jobs = Dict.remove String-discrete name s.jobs }

set_enabled : Option ℕ → Bool → Scheduler → Scheduler
unfolding change
set_enabled none on s = s
set_enabled (some ref) on s = change ref (λ j. record j { enabled = on }) s

unfoldable pub enable : String → Scheduler → Scheduler
unfolding set_enabled
enable name s = set_enabled (Dict.get String-discrete name s.jobs) true s

unfoldable pub disable : String → Scheduler → Scheduler
unfolding set_enabled
disable name s = set_enabled (Dict.get String-discrete name s.jobs) false s

-- The objects for which one round of `_loop` starts `_run_job`, in order.
unfoldable pub due : ℕ → Scheduler → Dict String ℕ → List ℕ
due now s [] = []
due now s ((name, ref) ∷ d) =
    let rest = due now s d in if is_due now (s.objects ref) then ref ∷ rest else rest

-- `_run_job` up to the call of the function.
unfoldable pub begin : ℕ → ℕ → ℕ → Scheduler → Scheduler
unfolding change schedule_next
begin ref now second s = change ref (λ j. schedule_next second (record j { last_run = some now })) s

-- The rest of `_run_job`: `none` where the function returned, or its error.
unfoldable pub finish : ℕ → Option String → Scheduler → Scheduler
unfolding change
finish ref none s = record (change ref (λ j. record j { run_count = j.run_count + 1 }) s) {
  total_runs = s.total_runs + 1;
}
finish ref (some error) s =
    record (change ref (λ j. record j { error_count = j.error_count + 1; last_error = some error })
      s) { total_errors = s.total_errors + 1 }

pub data Event : Type 0 where
  registering : String → ℕ → Bool → ℕ → Event
  unregistering enabling disabling : String → Event
  beginning : ℕ → ℕ → ℕ → Event
  finishing : ℕ → Option String → Event
  starting stopping : Event

unfoldable pub step : Event → Scheduler → Scheduler
step (registering name interval run_immediately now) s =
    register name interval run_immediately now s
step (unregistering name) s = unregister name s
step (enabling name) s = enable name s
step (disabling name) s = disable name s
step (beginning ref now second) s = begin ref now second s
step (finishing ref error) s = finish ref error s
step starting s = start s
step stopping s = stop s

unfoldable pub run : List Event → Scheduler → Scheduler
run [] s = s
run (e ∷ es) s = run es (step e s)
