-- ===== src/Scheduler/Tests.antt =====
-- One job (coreai/scheduler.py), and an instance of the theorem.
use core_ai_protocol_suite.Prelude.{◌≡◌, true, false, none, some, [], ◌∷◌, arith}
use core_ai_protocol_suite.Scheduler.{
  Job, Scheduler, is_due, begin, disabling, enabling, finishing, run,
}
use core_ai_protocol_suite.Scheduler.Due.{run-not_due}

abbrev sweep : Job
sweep = record {
  name = "sweep";
  interval_seconds = 60;
  last_run = none;
  next_run = 10;
  run_count = 0;
  error_count = 0;
  last_error = none;
  enabled = true;
}

abbrev scheduler : Scheduler
scheduler = record {
  objects = λ _. sweep;
  allocated = 1;
  jobs = ("sweep", 0) ∷ [];
  running = true;
  total_runs = 0;
  total_errors = 0;
}

run-not_due_example :
    is_due 69 (
      (run
          (disabling "sweep" ∷ finishing 0 (some "late") ∷ enabling "sweep" ∷ [])
          (begin 0 10 10 scheduler)).objects
        0)
    ≡ false
run-not_due_example =
    run-not_due (disabling "sweep" ∷ finishing 0 (some "late") ∷ enabling "sweep" ∷ []) 0 10 10 69
      scheduler (omega arith) (tt, (tt, (tt, tt))) (omega arith)
