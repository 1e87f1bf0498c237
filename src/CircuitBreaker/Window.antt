-- ===== src/CircuitBreaker/Window.antt =====
-- An open circuit until its window has passed (coreai/circuit_breaker.py).
use core_ai_protocol_suite.Prelude.{
  ℕ, ◌+◌, ◌≤◌, ◌<◌, ◌≡◌, refl, false, some, List, [], ◌∷◌, All, arith, leb,
}
use core_ai_protocol_suite.CircuitBreaker.{
  CircuitBreaker, open_, observe, allow, record_success, record_failure, release, retry_after, Call,
  ask, peek, success, failure, give_up, step, run, admitted,
}

-- Every clock reading by which the call decides falls before `limit`.
abbrev pub Before : ℕ → Call → Type 0
Before limit (ask now) = now < limit
Before limit (peek now) = now < limit
Before limit (success now) = now < limit
Before limit (failure now later) = now < limit
Before limit give_up = Unit

step_open :
    (c : Call) (b : CircuitBreaker)
    → b.state ≡ open_
    → Before (b.opened_at + b.reset_timeout) c
    → step c b ≡ (b, false)
unfolding step allow record_success record_failure release observe
step_open (ask now) b o h = ground arith
step_open (peek now) b o h = ground arith
step_open (success now) b o h = ground arith
step_open (failure now later) b o h = ground arith
step_open give_up b o h = ground arith

-- While an open circuit's window lasts, no sequence of calls changes the breaker in any field
-- (so late failures do not extend the window, and late successes do not close it), and none of
-- the calls is admitted.
pub run_open :
    (cs : List Call) (b : CircuitBreaker)
    → b.state ≡ open_
    → All (Before (b.opened_at + b.reset_timeout)) cs
    → (run cs b ≡ b) × (admitted cs b ≡ 0)
unfolding run admitted
run_open [] b o h = (refl, refl)
run_open (c ∷ cs) b o h = ground (arith, step_open c b o h.0, run_open cs b o h.1)

-- The hint of `retry_after` is exact: with an open circuit whose window is still running, and
-- that allows any probe at all, a call is admitted exactly when the hinted time has passed.
pub retry_after-allow :
    (now wait later : ℕ) (b : CircuitBreaker)
    → b.state ≡ open_
    → 1 ≤ b.half_open_max_calls
    → retry_after now b ≡ some wait
    → now < b.opened_at + b.reset_timeout
    → (allow later b).1 ≡ leb (now + wait) later
unfolding retry_after allow observe
retry_after-allow now wait later b o many h pending = ground arith
