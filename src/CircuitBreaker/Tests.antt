-- ===== src/CircuitBreaker/Tests.antt =====
-- Runs of the breaker (coreai/circuit_breaker.py) and instances of its theorems.
use core_ai_protocol_suite.Prelude.{◌≡◌, refl, none, some, [], ◌∷◌, arith}
use core_ai_protocol_suite.CircuitBreaker.{
  CircuitBreaker, closed, open_, half_open, init, allow, record_success, record_failure,
  retry_after, ask, success, failure, step, run, admitted,
}
use core_ai_protocol_suite.CircuitBreaker.Invariant.{IsValid, run-IsValid}
use core_ai_protocol_suite.CircuitBreaker.Window.{run_open}

abbrev fresh : CircuitBreaker
fresh = record {
  name = "openai";
  failure_threshold = 2;
  reset_timeout = 30;
  half_open_max_calls = 1;
  state = closed;
  failures = 0;
  opened_at = 0;
  probes_in_flight = 0;
  total_opened = 0;
  changes = [];
}

abbrev tripped : CircuitBreaker
tripped = record fresh { state = open_; failures = 2; opened_at = 11; total_opened = 1 }

abbrev probing : CircuitBreaker
probing = record tripped { state = half_open }

init_refuses : init "openai" 0 30 1 ≡ none
unfolding init
init_refuses = refl

-- Two failures open the circuit; it refuses at 40, admits one probe at 41 and closes on success.
life_of_a_breaker :
    (admitted
        (failure 10 10 ∷ failure 11 11 ∷ ask 40 ∷ ask 41 ∷ ask 41 ∷ success 42 ∷ ask 43 ∷ [])
        fresh
      ≡ 2)
    × ((run
          (failure 10 10 ∷ failure 11 11 ∷ ask 40 ∷ ask 41 ∷ ask 41 ∷ success 42 ∷ [])
          fresh).changes
        ≡ closed ∷ open_ ∷ [])
unfolding admitted run step allow record_failure record_success
life_of_a_breaker = (refl, refl)

fresh-IsValid : IsValid fresh
fresh-IsValid = ground arith

run-IsValid_example : IsValid (run (failure 10 10 ∷ failure 11 12 ∷ ask 50 ∷ []) fresh)
run-IsValid_example = run-IsValid (failure 10 10 ∷ failure 11 12 ∷ ask 50 ∷ []) fresh fresh-IsValid

run_open_example :
    (run (failure 20 21 ∷ ask 40 ∷ success 30 ∷ []) tripped ≡ tripped)
    × (admitted (failure 20 21 ∷ ask 40 ∷ success 30 ∷ []) tripped ≡ 0)
run_open_example = run_open (failure 20 21 ∷ ask 40 ∷ success 30 ∷ []) tripped refl (omega arith)

retry_after_20 : retry_after 20 tripped ≡ some 21
unfolding retry_after
retry_after_20 = refl
