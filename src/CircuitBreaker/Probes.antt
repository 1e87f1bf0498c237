-- ===== src/CircuitBreaker/Probes.antt =====
-- Admission, and the probes of a half-open circuit (coreai/circuit_breaker.py).
use native.Mathlib.Decide.{dec_lt}
use core_ai_protocol_suite.Prelude.{
  ℕ, ◌+◌, ◌-◌, ◌≤◌, ◌<◌, ◌≡◌, true, false, List, [], ◌∷◌, min, length, arith,
}
use core_ai_protocol_suite.CircuitBreaker.{
  CircuitBreaker, closed, open_, half_open, observe, would_allow, allow, record_success,
  record_failure, Call, ask, step, admitted,
}

-- The peek and the admission agree at the same reading of the clock.
pub would_allow-allow : (now : ℕ) (b : CircuitBreaker) → would_allow now b ≡ (allow now b).1
unfolding would_allow allow observe
would_allow-allow now b = ground arith

-- Nothing but admissions, at the given readings.
abbrev pub asks : List ℕ → List Call
asks [] = []
asks (t ∷ ts) = ask t ∷ asks ts

ask_free :
    (now : ℕ) (b : CircuitBreaker)
    → b.state ≡ half_open
    → b.probes_in_flight < b.half_open_max_calls
    → step (ask now) b ≡ (record b { probes_in_flight = b.probes_in_flight + 1 }, true)
unfolding step allow observe
ask_free now b h lt = ground arith

ask_full :
    (now : ℕ) (b : CircuitBreaker)
    → b.state ≡ half_open
    → b.probes_in_flight ≡ b.half_open_max_calls
    → step (ask now) b ≡ (b, false)
unfolding step allow observe
ask_full now b h e = ground arith

-- A half-open circuit admits exactly as many callers as it has free probe slots, however many
-- ask and whenever, until an outcome is recorded.
pub admitted-half_open :
    (ts : List ℕ) (b : CircuitBreaker)
    → b.state ≡ half_open
    → b.probes_in_flight ≤ b.half_open_max_calls
    → admitted (asks ts) b ≡ min (length ts) (b.half_open_max_calls - b.probes_in_flight)
unfolding admitted
admitted-half_open [] b h le = omega arith
admitted-half_open (t ∷ ts) b h le = elim (dec_lt b.probes_in_flight b.half_open_max_calls) [
  | yes free ↦
      let c : CircuitBreaker = record b { probes_in_flight = b.probes_in_flight + 1 } in
      rw (ask_free t b h free) (omega (arith, admitted-half_open ts c h (omega arith)))
  | no full ↦ rw (ask_full t b h (omega arith)) (omega (arith, admitted-half_open ts b h le))
]

-- Half-open is left by the first outcome: a success closes the circuit and clears the failure
-- count, a failure opens it again with a window that starts at the later reading of the clock.
pub half_open_outcome :
    (now later : ℕ) (b : CircuitBreaker)
    → b.state ≡ half_open
    → ((record_success now b).state ≡ closed)
      × ((record_success now b).failures ≡ 0)
      × ((record_failure now later b).state ≡ open_)
      × ((record_failure now later b).opened_at ≡ later)
      × ((record_failure now later b).total_opened ≡ b.total_opened + 1)
unfolding record_success record_failure observe
half_open_outcome now later b h = ground arith
