-- ===== src/CircuitBreaker/Settling.antt =====
-- A caller that asks the breaker and then reports what became of its call
-- (coreai/circuit_breaker.py, allow with record_success, record_failure and release).
use core_ai_protocol_suite.Prelude.{ℕ, ◌≤◌, ◌≡◌, true, false, arith}
use core_ai_protocol_suite.CircuitBreaker.{
  CircuitBreaker, allow, admit, observe, observe_at, half_open_if, record_success, succeed,
  record_failure, fail, trip, changed, give_back, release, release_at,
}

pub allow_refused :
    (now : ℕ) (b : CircuitBreaker)
    → (allow now b).1 ≡ false
    → (allow now b).0.probes_in_flight ≤ b.probes_in_flight
unfolding allow observe observe_at half_open_if admit
allow_refused now b h = ground arith

pub allow_released :
    (now : ℕ) (b : CircuitBreaker)
    → (allow now b).1 ≡ true
    → (release (allow now b).0).probes_in_flight ≤ b.probes_in_flight
unfolding allow observe observe_at half_open_if admit release release_at give_back
allow_released now b h = ground arith

pub allow_succeeded :
    (now end : ℕ) (b : CircuitBreaker)
    → (allow now b).1 ≡ true
    → (record_success end (allow now b).0).probes_in_flight ≤ b.probes_in_flight
unfolding allow observe observe_at half_open_if admit record_success succeed give_back changed
allow_succeeded now end b h = ground arith

pub allow_failed :
    (now end later : ℕ) (b : CircuitBreaker)
    → (allow now b).1 ≡ true
    → (record_failure end later (allow now b).0).probes_in_flight ≤ b.probes_in_flight
unfolding allow observe observe_at half_open_if admit record_failure fail trip give_back changed
allow_failed now end later b h = ground arith
