-- ===== src/CircuitBreaker.antt =====
-- src/coreai/circuit_breaker.py: the per-provider circuit breaker.
--
-- Times are natural numbers of ticks. `clock() - opened_at >= reset_timeout` is written with the
-- subtraction carried over, since `-` on ℕ stops at 0. A method that reads the clock twice takes
-- the two readings as two arguments. The calls of `_changed` are the list `changes`, newest first.
mod Invariant
mod Window
mod Probes
mod Counting
pub mod Settling
mod Tests
use core_ai_protocol_suite.Prelude.{
  ℕ, ◌+◌, ◌-◌, String, Bool, true, false, Option, none, some, List, [], ◌∷◌, ltb, leb,
  if◌then◌else◌,
}

pub data CircuitState : Type 0 where
  closed open_ half_open : CircuitState

pub record CircuitBreaker : Type 0 where
  pub name : String
  pub failure_threshold : ℕ
  pub reset_timeout : ℕ
  pub half_open_max_calls : ℕ
  pub state : CircuitState
  pub failures : ℕ
  pub opened_at : ℕ
  pub probes_in_flight : ℕ
  pub total_opened : ℕ
  pub changes : List CircuitState

-- The constructor; `none` is the ValueError.
unfoldable pub init : String → ℕ → ℕ → ℕ → Option CircuitBreaker
init name threshold timeout max_calls =
    if ltb threshold 1
    then none
    else some (record {
      name = name;
      failure_threshold = threshold;
      reset_timeout = timeout;
      half_open_max_calls = max_calls;
      state = closed;
      failures = 0;
      opened_at = 0;
      probes_in_flight = 0;
      total_opened = 0;
      changes = [];
    })

-- The property `state`: an open circuit whose window has passed becomes half-open when it is read.
half_open_if : Bool → CircuitBreaker → CircuitBreaker
half_open_if true b = record b { state = half_open; probes_in_flight = 0 }
half_open_if false b = b

observe_at : CircuitState → ℕ → CircuitBreaker → CircuitBreaker
unfolding half_open_if
observe_at open_ now b = half_open_if (leb (b.opened_at + b.reset_timeout) now) b
observe_at closed now b = b
observe_at half_open now b = b

unfoldable pub observe : ℕ → CircuitBreaker → CircuitBreaker
unfolding observe_at
observe now b = observe_at b.state now b

admits : CircuitState → CircuitBreaker → Bool
admits closed b = true
admits half_open b = ltb b.probes_in_flight b.half_open_max_calls
admits open_ b = false

unfoldable pub would_allow : ℕ → CircuitBreaker → Bool
unfolding observe admits
would_allow now b = let c = observe now b in admits c.state c

admit : CircuitState → CircuitBreaker → CircuitBreaker × Bool
admit closed b = (b, true)
admit half_open b =
    if ltb b.probes_in_flight b.half_open_max_calls
    then (record b { probes_in_flight = b.probes_in_flight + 1 }, true)
    else (b, false)
admit open_ b = (b, false)

unfoldable pub allow : ℕ → CircuitBreaker → CircuitBreaker × Bool
unfolding observe admit
allow now b = let c = observe now b in admit c.state c

changed : CircuitState → CircuitBreaker → CircuitBreaker
changed new b = record b { changes = new ∷ b.changes }

-- `_open`, at its own reading of the clock.
trip : ℕ → CircuitBreaker → CircuitBreaker
unfolding changed
trip now b = changed open_ (record b {
  state = open_;
  opened_at = now;
  probes_in_flight = 0;
  total_opened = b.total_opened + 1;
})

-- `max(0, self._probes_in_flight - 1)`
give_back : CircuitBreaker → CircuitBreaker
give_back b = record b { probes_in_flight = b.probes_in_flight - 1 }

succeed : CircuitState → CircuitBreaker → CircuitBreaker
unfolding changed give_back
succeed open_ b = b
succeed half_open b = changed closed (record (give_back b) { state = closed; failures = 0 })
succeed closed b = record b { state = closed; failures = 0 }

unfoldable pub record_success : ℕ → CircuitBreaker → CircuitBreaker
unfolding observe succeed
record_success now b = let c = observe now b in succeed c.state c

fail : CircuitState → ℕ → CircuitBreaker → CircuitBreaker
unfolding trip give_back
fail open_ now b = b
fail half_open now b = trip now (give_back b)
fail closed now b =
    let c : CircuitBreaker = record b { failures = b.failures + 1 } in
    if leb c.failure_threshold c.failures then trip now c else c

-- `now` is the reading of the property `state`, `later` that of `_open`.
unfoldable pub record_failure : ℕ → ℕ → CircuitBreaker → CircuitBreaker
unfolding observe fail
record_failure now later b = let c = observe now b in fail c.state later c

release_at : CircuitState → CircuitBreaker → CircuitBreaker
unfolding give_back
release_at half_open b = give_back b
release_at closed b = b
release_at open_ b = b

-- `release` reads the stored state, not the property.
unfoldable pub release : CircuitBreaker → CircuitBreaker
unfolding release_at
release b = release_at b.state b

retry_after_at : CircuitState → ℕ → CircuitBreaker → Option ℕ
retry_after_at open_ now b = some (b.opened_at + b.reset_timeout - now)
retry_after_at closed now b = none
retry_after_at half_open now b = none

unfoldable pub retry_after : ℕ → CircuitBreaker → Option ℕ
unfolding retry_after_at
retry_after now b = retry_after_at b.state now b

-- What a caller may do, each with its readings of the clock.
pub data Call : Type 0 where
  ask peek success : ℕ → Call
  failure : ℕ → ℕ → Call
  give_up : Call

-- The breaker after a call, and whether the call was an admission.
unfoldable pub step : Call → CircuitBreaker → CircuitBreaker × Bool
step (ask now) b = allow now b
step (peek now) b = (observe now b, false)
step (success now) b = (record_success now b, false)
step (failure now later) b = (record_failure now later b, false)
step give_up b = (release b, false)

-- A whole history of calls, and how many of them were admitted.
unfoldable pub run : List Call → CircuitBreaker → CircuitBreaker
run [] b = b
run (c ∷ cs) b = run cs (step c b).0

unfoldable pub admitted : List Call → CircuitBreaker → ℕ
admitted [] b = 0
admitted (c ∷ cs) b = let rest = admitted cs (step c b).0 in if (step c b).1 then rest + 1 else rest
