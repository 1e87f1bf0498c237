-- ===== src/Router/Stream.antt =====
-- src/coreai/router.py: `_stream` and `_open_stream`, the path of a streamed request after `_screen`
-- has chosen the candidates.
--
-- To open a stream is a call like those of `_route` whose answer is the first chunk, or `none`
-- where the stream ends before one. What comes after it is in the environment: the chunks that
-- are delivered, and how the stream ends. A cancellation while a stream is opened, the usage and
-- the statistics are left out.
pub mod Balanced
pub mod OneFlow
use core_ai_protocol_suite.Prelude.{
  ℕ, ◌+◌, String, Bool, true, false, Option, none, some, List, [], ◌∷◌, ◌++◌, if◌then◌else◌,
}
use core_ai_protocol_suite.Errors.{ErrorKind, circuit_open, Exc, classify, breaker_counted}
use core_ai_protocol_suite.Deadline.{Deadline, check, in_time}
use core_ai_protocol_suite.Deadline
use core_ai_protocol_suite.CircuitBreaker.{
  CircuitBreaker, allow, record_success, record_failure, release, retry_after,
}
use core_ai_protocol_suite.Retry.{Outcome, returned, raised, RetryManager}
use core_ai_protocol_suite.Router.{
  Router, Call, with_breaker, take_slot, free_slot, refuse, finish, answer, goes_on, attempts_for,
  count_failover, circuit_open_exc, deadline_error, provider_timeout, is_single,
}

-- How a stream ends after its first chunk: by itself, with the provider's exception, without a chunk within the
-- provider's timeout, or because the client has gone.
pub data Close : Type 0 where
  ends stalls leaves : Close
  breaks : Exc → Close

-- `settled` and `later` are the breaker's clock when the end is recorded.
pub record Body : Type 0 where
  pub chunks : List String
  pub close : Close
  pub settled : ℕ
  pub later : ℕ

-- What the client has received, and how it came to an end.
pub data Streamed : Type 0 where
  delivered gone : String → List String → List (String × ErrorKind) → Streamed
  interrupted : String → List String → List (String × ErrorKind) → Exc → Streamed
  stopped : Exc → Streamed
  unavailable : List (String × ErrorKind) → Streamed

-- The end of `_open_stream`: an open stream keeps its slots.
unfoldable pub opened :
    String
    → Call (Option String)
    → Router
    → Option (Option RetryManager × Outcome (Option String))
    → Option (Router × Outcome (Option String))
opened name call r none = none
opened name call r (some (m, returned first)) =
    some (record r { retry_manager = m }, returned first)
opened name call r (some (m, raised e)) = finish name call r (some (m, raised e))

-- _open_stream
unfoldable pub open_stream :
    String
    → Deadline
    → ℕ
    → Call (Option String)
    → Router
    → Option (Router × Outcome (Option String))
unfolding opened
open_stream name d attempts call r = elim (check d call.checked) [
  | Deadline.deadline_exceeded ↦ refuse name deadline_error r
  | in_time ↦ elim call.admission [
    | some e ↦ refuse name e r
    | none ↦
        opened name call (take_slot name r)
          (answer r.retry_manager d (r.config.timeout_for name) attempts call.tries)
  ]
]

-- A timeout in mid-stream is the provider's.
unfoldable pub raised_as : Exc → Exc
raised_as e = if e.is_timeout_error then provider_timeout else e

settle_failure : Body → Exc → CircuitBreaker → CircuitBreaker
settle_failure body e b =
    if breaker_counted (classify e).kind
    then record_failure body.settled body.later b
    else release b

settle_close : Body → Close → CircuitBreaker → CircuitBreaker
unfolding settle_failure raised_as
settle_close body ends b = record_success body.settled b
settle_close body stalls b = settle_failure body provider_timeout b
settle_close body leaves b = release b
settle_close body (breaks e) b = settle_failure body (raised_as e) b

-- The breaker after an open stream.
unfoldable pub settle_stream : Body → Option String → CircuitBreaker → CircuitBreaker
unfolding settle_close
settle_stream body none b = record_success body.settled b
settle_stream body (some first) b = settle_close body body.close b

closed_with : Close → String → List String → List (String × ErrorKind) → Streamed
closed_with ends name chunks failures = delivered name chunks failures
closed_with stalls name chunks failures = interrupted name chunks failures provider_timeout
closed_with leaves name chunks failures = gone name chunks failures
closed_with (breaks e) name chunks failures = interrupted name chunks failures (raised_as e)

-- What the client gets of an open stream.
unfoldable pub received : Body → Option String → String → List (String × ErrorKind) → Streamed
unfolding closed_with
received body none name failures = delivered name [] failures
received body (some first) name failures =
    closed_with body.close name (first ∷ body.chunks) failures

unfoldable pub close_stream : String → Body → Option String → Router → Router
close_stream name body first r =
    free_slot name (with_breaker name (settle_stream body first (r.breakers name)) r)

ending : Bool → Option Exc → List (String × ErrorKind) → Streamed
ending true (some e) failures = stopped e
ending true none failures = unavailable failures
ending false last failures = unavailable failures

-- The loop from place `i` on, with what it has kept so far.
unfoldable pub stream_from :
    (ℕ → Call (Option String))
    → (ℕ → Body)
    → Deadline
    → Bool
    → ℕ
    → Option Exc
    → List (String × ErrorKind)
    → List String
    → Router
    → Option (Router × Streamed)
unfolding ending
stream_from env body d single i last failures [] r = some (r, ending single last failures)
stream_from env body d single i last failures (name ∷ rest) r =
    let asked = allow (env i).asked (r.breakers name) in
    let q = with_breaker name asked.0 r in
    elim asked.1 [
      | false ↦
          stream_from env body d single (i + 1)
            (some (circuit_open_exc (retry_after (env i).hint asked.0)))
            (failures ++ ((name, circuit_open) ∷ [])) rest q
      | true ↦ elim (open_stream name d (attempts_for r.config rest) (env i) q) [
        | none ↦ none
        | some (p, returned first) ↦
            some (close_stream name (body i) first p, received (body i) first name failures)
        | some (p, raised e) ↦ elim (goes_on r.config e) [
          | true ↦
              stream_from env body d single (i + 1) (some e)
                (failures ++ ((name, (classify e).kind) ∷ [])) rest (count_failover rest p)
          | false ↦ some (p, stopped e)
        ]
      ]
    ]

-- _stream
unfoldable pub stream :
    (ℕ → Call (Option String))
    → (ℕ → Body)
    → Deadline
    → List String
    → Router
    → Option (Router × Streamed)
stream env body d candidates r =
    stream_from env body d (is_single candidates) 0 none [] candidates r
