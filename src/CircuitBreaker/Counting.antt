-- ===== src/CircuitBreaker/Counting.antt =====
-- Consecutive failures against the threshold (coreai/circuit_breaker.py).
use core_ai_protocol_suite.Prelude.{ℕ, ◌+◌, ◌<◌, ◌≡◌, List, [], ◌∷◌, length, arith}
use core_ai_protocol_suite.CircuitBreaker.{
  CircuitBreaker, closed, open_, observe, record_success, record_failure, Call, failure, step, run,
}

-- One failure for each pair of readings.
abbrev pub failures_at : List (ℕ × ℕ) → List Call
failures_at [] = []
failures_at ((now, later) ∷ ts) = failure now later ∷ failures_at ts

failure-closed :
    (now later : ℕ) (b : CircuitBreaker)
    → b.state ≡ closed
    → b.failures + 1 < b.failure_threshold
    → record_failure now later b ≡ record b { failures = b.failures + 1 }
unfolding record_failure observe
failure-closed now later b h lt = ground arith

run-failures_below :
    (ts : List (ℕ × ℕ)) (b : CircuitBreaker)
    → b.state ≡ closed
    → b.failures + length ts < b.failure_threshold
    → run (failures_at ts) b ≡ record b { failures = b.failures + length ts }
unfolding run step
run-failures_below [] b h lt = ground arith
run-failures_below ((now, later) ∷ ts) b h lt = ground (
  arith,
  failure-closed now later b,
  run-failures_below ts (record b { failures = b.failures + 1 }),
)

last_failure :
    (now later : ℕ) (b : CircuitBreaker)
    → b.state ≡ closed
    → b.failures + 1 ≡ b.failure_threshold
    → ((record_failure now later b).state ≡ open_)
      × ((record_failure now later b).opened_at ≡ later)
      × ((record_failure now later b).changes ≡ open_ ∷ b.changes)
unfolding record_failure observe
last_failure now later b h e = ground arith

-- Failures in a row on a closed circuit, at any readings of the clock: those that stay below the
-- threshold are counted and change nothing else; the one that reaches it opens the circuit, with
-- its window starting at that failure's second reading, and notifies once.
pub run-failures_at :
    (ts : List (ℕ × ℕ)) (now later : ℕ) (b : CircuitBreaker)
    → b.state ≡ closed
    → b.failures + length ts + 1 ≡ b.failure_threshold
    → (run (failures_at ts) b ≡ record b { failures = b.failures + length ts })
      × ((record_failure now later (run (failures_at ts) b)).state ≡ open_)
      × ((record_failure now later (run (failures_at ts) b)).opened_at ≡ later)
      × ((record_failure now later (run (failures_at ts) b)).changes ≡ open_ ∷ b.changes)
run-failures_at ts now later b h e =
    let below = run-failures_below ts b h (omega arith) in
    let last = last_failure now later (record b { failures = b.failures + length ts }) h e in
    (below, rw below last.0, rw below last.1, rw below last.2)

-- A success on a closed circuit forgets the failures counted so far, so that only failures in a
-- row count.
pub record_success-closed :
    (now : ℕ) (b : CircuitBreaker)
    → b.state ≡ closed
    → record_success now b ≡ record b { failures = 0 }
unfolding record_success observe
record_success-closed now b h = ground arith
