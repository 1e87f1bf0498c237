-- ===== src/CircuitBreaker/Invariant.antt =====
-- The well-formedness of a breaker (coreai/circuit_breaker.py).
use core_ai_protocol_suite.Prelude.{ℕ, ◌≤◌, ◌<◌, ◌≡◌, ◌≢◌, String, some, List, [], ◌∷◌, arith}
use core_ai_protocol_suite.CircuitBreaker.{
  CircuitBreaker, closed, open_, half_open, init, observe, allow, record_success, record_failure,
  release, Call, ask, peek, success, failure, give_up, step, run,
}

pub record IsValid (b : CircuitBreaker) : Type 0 where
  pub threshold_positive : 1 ≤ b.failure_threshold
  pub below_threshold : b.state ≡ closed → b.failures < b.failure_threshold
  pub probes_bounded : b.state ≡ half_open → b.probes_in_flight ≤ b.half_open_max_calls
  pub open_idle : b.state ≡ open_ → b.probes_in_flight ≡ 0
  pub tripped : b.state ≢ closed → 1 ≤ b.total_opened

pub init-IsValid :
    (name : String) (threshold timeout calls : ℕ) (b : CircuitBreaker)
    → init name threshold timeout calls ≡ some b
    → IsValid b
unfolding init
init-IsValid name threshold timeout calls b h = ground arith

pub observe-IsValid : (now : ℕ) (b : CircuitBreaker) → IsValid b → IsValid (observe now b)
unfolding observe
observe-IsValid now b v = ground arith

pub step-IsValid : (c : Call) (b : CircuitBreaker) → IsValid b → IsValid (step c b).0
unfolding step allow record_success record_failure release observe
step-IsValid (ask now) b v = ground arith
step-IsValid (peek now) b v = ground arith
step-IsValid (success now) b v = ground arith
step-IsValid (failure now later) b v = ground arith
step-IsValid give_up b v = ground arith

-- From a well-formed breaker every sequence of calls, at whatever clock readings, leads to a
-- well-formed breaker: a closed circuit is below its failure threshold, a half-open one has no
-- more probes in flight than it may, an open one has none, and one that is not closed has opened
-- at least once.
pub run-IsValid : (cs : List Call) (b : CircuitBreaker) → IsValid b → IsValid (run cs b)
unfolding run
run-IsValid [] b v = v
run-IsValid (c ∷ cs) b v = run-IsValid cs (step c b).0 (step-IsValid c b v)
