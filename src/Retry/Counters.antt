-- ===== src/Retry/Counters.antt =====
-- The statistics of the retry manager (coreai/retry.py, RetryManager).
use native.Mathlib.Decide.{ℕ_discrete}
use core_ai_protocol_suite.Prelude.{
  ℕ, ◌+◌, ◌≤◌, ◌≡◌, refl, Option, none, some, List, [], ◌∷◌, length, arith,
}
use core_ai_protocol_suite.Deadline.{Deadline}
use core_ai_protocol_suite.Retry.Attempts.{run_with_retry-IsComplete}
use core_ai_protocol_suite.Errors.{status_of}
use core_ai_protocol_suite.Counter.{Counter, total, total-bump}
use core_ai_protocol_suite.Retry.{
  RetryConfig, ErrorKind-discrete, RetryManager, init, note, note_all, bump_status, Outcome,
  returned, raised, Note, Run, settle, execute, Attempt, run_with_retry, effective,
}

-- The manager's totals agree with its tables: every retry is counted under its kind once, and
-- under a status at most once.
pub record IsConsistent (m : RetryManager) : Type 0 where
  pub by_kind : total m.retries_by_kind ≡ m.total_retries
  pub by_status : total m.retries_by_status ≤ m.total_retries

pub init-IsConsistent : (c : RetryConfig) → IsConsistent (init c)
unfolding init total
init-IsConsistent c = ground arith

total-bump_status : (s : Option ℕ) (m : Counter ℕ) → total (bump_status s m) ≤ total m + 1
unfolding bump_status
total-bump_status none m = omega arith
total-bump_status (some s) m = omega (arith, total-bump ℕ_discrete s m)

note-IsConsistent : (m : RetryManager) (n : Note) → IsConsistent m → IsConsistent (note m n)
unfolding note
note-IsConsistent m n v = record {
  by_kind = omega (arith, total-bump ErrorKind-discrete n.info.kind m.retries_by_kind);
  by_status = omega (arith, total-bump_status (status_of n.exc) m.retries_by_status);
}

note_all-IsConsistent :
    (ns : List Note) (m : RetryManager) → IsConsistent m → IsConsistent (note_all m ns)
unfolding note_all
note_all-IsConsistent [] m v = v
note_all-IsConsistent (n ∷ ns) m v = note_all-IsConsistent ns (note m n) (note-IsConsistent m n v)

note_all_totals :
    (ns : List Note) (m : RetryManager)
    → ((note_all m ns).total_retries ≡ m.total_retries + length ns)
      × ((note_all m ns).total_failures ≡ m.total_failures)
unfolding note_all note
note_all_totals [] m = ground arith
note_all_totals (n ∷ ns) m = omega (arith, note_all_totals ns (note m n))

-- One failure for a run that raises in the end, none for one that returns.
abbrev pub failures_of : {A : Type 0} → Outcome A → ℕ
failures_of (returned a) = 0
failures_of (raised e) = 1

settle-IsConsistent :
    {A : Type 0} (m : RetryManager) (ns : List Note) (o : Outcome A)
    → IsConsistent m
    → IsConsistent (settle m (record { outcome = o; notes = ns })).0
      × ((settle m (record { outcome = o; notes = ns })).0.total_retries
          ≡ m.total_retries + length ns)
      × ((settle m (record { outcome = o; notes = ns })).0.total_failures
          ≡ m.total_failures + failures_of o)
unfolding settle
settle-IsConsistent m ns (returned a) v =
    let w = note_all-IsConsistent ns m v in
    (w, omega (arith, note_all_totals ns m), omega (arith, note_all_totals ns m))
settle-IsConsistent m ns (raised e) v =
    let w = note_all-IsConsistent ns m v in
    (
      record { by_kind = w.by_kind; by_status = w.by_status },
      omega (arith, note_all_totals ns m),
      omega (arith, note_all_totals ns m),
    )

-- The run that `execute` makes: the override of `max_attempts` counts where it is given and not 0.
abbrev pub run_of :
    {A : Type 0} → RetryManager → Option Deadline → Option ℕ → (ℕ → Attempt A) → Option (Run A)
run_of m deadline max_attempts env = run_with_retry (effective m.config max_attempts) deadline env

-- `execute` always settles on consistent statistics, if they were consistent before: it returns
-- what its run gave, adds that run's retries to `total_retries`, and adds one to
-- `total_failures` exactly when the run raised.
pub execute-IsConsistent :
    {A : Type 0} (m : RetryManager) (d : Option Deadline) (o : Option ℕ) (env : ℕ → Attempt A)
    → IsConsistent m
    → (r : Run A) × (run_of m d o env ≡ some r)
      × (x : RetryManager × Outcome A) × (execute m d o env ≡ some x)
      × (x.1 ≡ r.outcome)
      × IsConsistent x.0
      × (x.0.total_retries ≡ m.total_retries + length r.notes)
      × (x.0.total_failures ≡ m.total_failures + failures_of r.outcome)
unfolding execute
execute-IsConsistent m d o env v =
    let (r, eq, k) = run_with_retry-IsComplete (effective m.config o) d env in
    let s = settle-IsConsistent m r.notes r.outcome v in
    (r, eq, settle m r, rw (eq, execute), refl, s.0, s.1, s.2)

-- Whatever its statistics, `execute` always gives a result.
pub execute-total :
    {A : Type 0} (m : RetryManager) (d : Option Deadline) (o : Option ℕ) (env : ℕ → Attempt A)
    → (x : RetryManager × Outcome A) × (execute m d o env ≡ some x)
unfolding execute
execute-total m d o env =
    let (r, eq, _) = run_with_retry-IsComplete (effective m.config o) d env in (settle m r, rw eq)
