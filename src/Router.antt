-- ===== src/Router.antt =====
-- src/coreai/router.py: the loop of `_route` over the candidates, `_call_provider` and the deadline
-- and breaker accounting around each call.
--
-- This is the path of a request that is not hedged (`hedge_delay` is None, so `skip` stays empty)
-- after `_screen` has chosen the candidates and the cache has missed. What the outside does is in a
-- `Call` for each place in the list of candidates: the readings of the clock, what the limiter
-- answers, and what each attempt does. Messages of exceptions are abridged; the statistics and the
-- cancellation of the whole request are left out.
mod Balance
mod Failover
mod Embed
mod Stream
mod Tests
use mathlib.Core.Logic.{ite}
use mathlib.Core.Option
use core_ai_protocol_suite.Prelude.{
  ℕ, ◌+◌, ◌-◌, min, String, String-discrete, Bool, true, false, ◌&&◌, not, ◌||◌, Option, none, some,
  List, [], ◌∷◌, ◌++◌, leb, if◌then◌else◌,
}
use core_ai_protocol_suite.Errors.{
  ErrorKind, deadline, circuit_open, Exc, absent, real, foreign, deadline_exceeded,
  circuit_open_error, Attribute, OwnClass, classify, failover, breaker_counted,
}
use core_ai_protocol_suite.Deadline.{Deadline, expired, clamp, check, in_time}
use core_ai_protocol_suite.Deadline
use core_ai_protocol_suite.CircuitBreaker.{
  CircuitBreaker, allow, record_success, record_failure, release, retry_after,
}
use core_ai_protocol_suite.Retry.{Outcome, returned, raised, Attempt, RetryManager, execute}

-- `timeout_for name` is `provider_timeouts.get(name, request_timeout_seconds)`.
pub record RoutingConfig : Type 0 where
  pub max_retry_attempts : ℕ
  pub max_attempts_before_failover : ℕ
  pub enable_failover : Bool
  pub timeout_for : String → ℕ

-- `active_requests name` is the count of the provider's limiter; `retry_manager` is `none` where
-- retries are switched off.
pub record Router : Type 0 where
  pub config : RoutingConfig
  pub breakers : String → CircuitBreaker
  pub active_requests : String → ℕ
  pub retry_manager : Option RetryManager
  pub failover_count : ℕ

abbrev pub own_error : OwnClass → Bool → Attribute → Exc
own_error c is_timeout hint = record {
  own_class = c;
  status_code = absent;
  status = absent;
  code = absent;
  retry_after = hint;
  response = none;
  is_timeout_error = is_timeout;
  is_connection_error = false;
  class_names = [];
  message = "";
}

abbrev pub deadline_error : Exc
deadline_error = own_error deadline_exceeded true absent

abbrev pub provider_timeout : Exc
provider_timeout = own_error foreign true absent

seconds_hint : Option ℕ → Attribute
seconds_hint none = absent
seconds_hint (some n) = real n

unfoldable pub circuit_open_exc : Option ℕ → Exc
unfolding seconds_hint
circuit_open_exc hint = own_error circuit_open_error false (seconds_hint hint)

-- One attempt on a provider: when it starts, how long the provider takes and what it does then, the
-- reading of the clock after a timeout, and the draw and the reading of the retry loop.
pub record Try (A : Type 0) : Type 0 where
  pub started : ℕ
  pub takes : ℕ
  pub outcome : Outcome A
  pub ended : ℕ
  pub draw : ℕ
  pub now : ℕ

-- What happens around one candidate. `asked` and `hint` are the breaker's clock at `allow` and
-- `retry_after`, `checked` the deadline's, `admission` the exception of the limiter if it admits
-- nothing, `settled` and `later` the breaker's clock when the outcome is recorded.
pub record Call (A : Type 0) : Type 0 where
  pub asked : ℕ
  pub hint : ℕ
  pub checked : ℕ
  pub admission : Option Exc
  pub tries : ℕ → Try A
  pub settled : ℕ
  pub later : ℕ

unfoldable pub with_breaker : String → CircuitBreaker → Router → Router
with_breaker name b r = record r { breakers = λ n. ite (String-discrete n name) b (r.breakers n) }

-- The slot of the limiter: `acquire` counts one more, `release` one less if there is one.
unfoldable pub take_slot : String → Router → Router
take_slot name r = record r {
  active_requests =
      λ n. ite (String-discrete n name) (r.active_requests name + 1) (r.active_requests n);
}

unfoldable pub free_slot : String → Router → Router
free_slot name r = record r {
  active_requests =
      λ n. ite (String-discrete n name) (r.active_requests name - 1) (r.active_requests n);
}

pub data Ending (A : Type 0) : Type 0 where
  answered : String → A → List (String × ErrorKind) → Ending A
  stopped : Exc → Ending A
  unavailable : List (String × ErrorKind) → Ending A

is_deadline : ErrorKind → Bool
is_deadline deadline = true
is_deadline _ = false

-- `not (info.kind is DEADLINE or not (enable_failover and info.failover))`
unfoldable pub goes_on : RoutingConfig → Exc → Bool
unfolding is_deadline
goes_on c e =
    not (is_deadline (classify e).kind) && (c.enable_failover && failover (classify e).kind)

-- `min` applies unless the candidate is the last one.
pub attempts_for : {B : Type 0} → RoutingConfig → List B → ℕ
attempts_for c [] = c.max_retry_attempts
attempts_for c (b ∷ bs) = min c.max_retry_attempts c.max_attempts_before_failover

pub count_failover : {B : Type 0} → List B → Router → Router
count_failover [] r = r
count_failover (b ∷ bs) r = record r { failover_count = r.failover_count + 1 }

pub is_single : List String → Bool
is_single (name ∷ []) = true
is_single _ = false

module _ {A : Type 0} where
  timed_out : Deadline → Try A → Outcome A
  timed_out d t = raised (if expired d t.ended then deadline_error else provider_timeout)

  -- A `TimeoutError` of the provider's own is caught as one of `wait_for`.
  caught : Deadline → Try A → Outcome A → Outcome A
  unfolding timed_out
  caught d t (returned a) = returned a
  caught d t (raised e) = if e.is_timeout_error then timed_out d t else raised e

  timed : Deadline → Try A → Option ℕ → Outcome A
  unfolding caught timed_out
  timed d t none = caught d t t.outcome
  timed d t (some seconds) =
      if leb seconds 0
      then raised deadline_error
      else if leb t.takes seconds
      then caught d t t.outcome
      else timed_out d t

  -- `one_call`, under the provider's timeout cut at the deadline.
  unfoldable pub one_call : Deadline → ℕ → Try A → Outcome A
  unfolding timed
  one_call d timeout t = timed d t (clamp d (some timeout) t.started)

  attempt : Deadline → ℕ → Try A → Attempt A
  attempt d timeout t = record { outcome = one_call d timeout t; draw = t.draw; now = t.now }

  kept : RetryManager × Outcome A → Option RetryManager × Outcome A
  kept (m, o) = (some m, o)

  -- The attempts: through the retry manager, or one call without.
  unfoldable pub answer :
      Option RetryManager
      → Deadline
      → ℕ
      → ℕ
      → (ℕ → Try A)
      → Option (Option RetryManager × Outcome A)
  unfolding attempt kept
  answer none d timeout attempts tries = some (none, one_call d timeout (tries 1))
  answer (some m) d timeout attempts tries =
      Option.map kept (execute m (some d) (some attempts) (λ n. attempt d timeout (tries n)))

  -- The breaker after the outcome of the attempts.
  unfoldable pub settle : Call A → Outcome A → CircuitBreaker → CircuitBreaker
  settle call (returned a) b = record_success call.settled b
  settle call (raised e) b =
      if breaker_counted (classify e).kind
      then record_failure call.settled call.later b
      else release b

  unfoldable pub finish :
      String
      → Call A
      → Router
      → Option (Option RetryManager × Outcome A)
      → Option (Router × Outcome A)
  finish name call r none = none
  finish name call r (some (m, o)) = some (
    free_slot name
        (with_breaker name (settle call o (r.breakers name)) (record r { retry_manager = m })),
    o,
  )

  -- What `_admit` and the check before it do where they raise: the probe slot is given back.
  unfoldable pub refuse : String → Exc → Router → Option (Router × Outcome A)
  refuse name e r = some (with_breaker name (release (r.breakers name)) r, raised e)

  unfoldable pub call_provider :
      String → Deadline → ℕ → Call A → Router → Option (Router × Outcome A)
  unfolding refuse finish
  call_provider name d attempts call r = elim (check d call.checked) [
    | Deadline.deadline_exceeded ↦ refuse name deadline_error r
    | in_time ↦ elim call.admission [
      | some e ↦ refuse name e r
      | none ↦
          finish name call (take_slot name r)
            (answer r.retry_manager d (r.config.timeout_for name) attempts call.tries)
    ]
  ]

  -- After the loop: the only candidate's exception, or AllProvidersUnavailable.
  ending : Bool → Option Exc → List (String × ErrorKind) → Ending A
  ending true (some e) failures = stopped e
  ending true none failures = unavailable failures
  ending false last failures = unavailable failures

  -- The loop from place `i` on, with what it has kept so far.
  unfoldable pub route_from :
      (ℕ → Call A)
      → Deadline
      → Bool
      → ℕ
      → Option Exc
      → List (String × ErrorKind)
      → List String
      → Router
      → Option (Router × Ending A)
  unfolding ending attempts_for count_failover
  route_from env d single i last failures [] r = some (r, ending single last failures)
  route_from env d single i last failures (name ∷ rest) r =
      let asked = allow (env i).asked (r.breakers name) in
      let q = with_breaker name asked.0 r in
      elim asked.1 [
        | false ↦
            route_from env d single (i + 1)
              (some (circuit_open_exc (retry_after (env i).hint asked.0)))
              (failures ++ ((name, circuit_open) ∷ [])) rest q
        | true ↦ elim (call_provider name d (attempts_for r.config rest) (env i) q) [
          | none ↦ none
          | some (p, returned a) ↦ some (p, answered name a failures)
          | some (p, raised e) ↦ elim (goes_on r.config e) [
            | true ↦
                route_from env d single (i + 1) (some e)
                  (failures ++ ((name, (classify e).kind) ∷ [])) rest (count_failover rest p)
            | false ↦ some (p, stopped e)
          ]
        ]
      ]

  unfoldable pub route : (ℕ → Call A) → Deadline → List String → Router → Option (Router × Ending A)
  unfolding is_single
  route env d candidates r = route_from env d (is_single candidates) 0 none [] candidates r
