-- ===== src/Router/Stream/Balanced.antt =====
-- Probe slots and rate-limit slots over a streamed request (coreai/router.py, _stream).
use mathlib.Core.Path.{subst}
use mathlib.Core.Option.{some-injective}
use core_ai_protocol_suite.Prelude.{
  sym, ℕ, ◌≤◌, ◌+◌, ◌≡◌, refl, inl, inr, Bool, ◌⊎◌, String, true, Option, none, some, List, [], ◌∷◌,
  arith, Bool-cases, Option-cases,
}
use core_ai_protocol_suite.Errors.{ErrorKind, Exc, classify, breaker_counted}
use core_ai_protocol_suite.Deadline.{Deadline, check}
use core_ai_protocol_suite.CircuitBreaker.{CircuitBreaker, allow, release}
use core_ai_protocol_suite.CircuitBreaker.Settling.{allow_released, allow_succeeded, allow_failed}
use core_ai_protocol_suite.Retry.{Outcome, returned, raised, RetryManager}
use core_ai_protocol_suite.Router.{
  refuse, finish, settle, Router, Call, answer, with_breaker, take_slot, free_slot, count_failover,
  attempts_for, goes_on, deadline_error, provider_timeout, is_single,
}
use core_ai_protocol_suite.Router.Balance.{
  IsBalanced, same, chain, refusal_balanced, counted_balanced, Check-cases, answer-total,
  settle_balanced, refuse_balanced, finish_balanced,
}
use core_ai_protocol_suite.Router.Stream.{
  raised_as, Close, ends, stalls, leaves, breaks, Body, Streamed, opened, open_stream,
  settle_failure, settle_close, settle_stream, close_stream, stream_from, stream,
}

settle_failure_balanced :
    (body : Body) (e : Exc) (now : ℕ) (b : CircuitBreaker)
    → (allow now b).1 ≡ true
    → (settle_failure body e (allow now b).0).probes_in_flight ≤ b.probes_in_flight
unfolding settle_failure
settle_failure_balanced body e now b h = elim (Bool-cases (breaker_counted (classify e).kind)) [
  | inl c ↦ rw c (allow_failed now body.settled body.later b h)
  | inr c ↦ rw c (allow_released now b h)
]

settle_close_balanced :
    (body : Body) (c : Close) (now : ℕ) (b : CircuitBreaker)
    → (allow now b).1 ≡ true
    → (settle_close body c (allow now b).0).probes_in_flight ≤ b.probes_in_flight
unfolding settle_close
settle_close_balanced body ends now b h = allow_succeeded now body.settled b h
settle_close_balanced body stalls now b h = settle_failure_balanced body provider_timeout now b h
settle_close_balanced body leaves now b h = allow_released now b h
settle_close_balanced body (breaks e) now b h = settle_failure_balanced body (raised_as e) now b h

settle_stream_balanced :
    (body : Body) (first : Option String) (now : ℕ) (b : CircuitBreaker)
    → (allow now b).1 ≡ true
    → (settle_stream body first (allow now b).0).probes_in_flight ≤ b.probes_in_flight
unfolding settle_stream
settle_stream_balanced body none now b h = allow_succeeded now body.settled b h
settle_stream_balanced body (some c) now b h = settle_close_balanced body body.close now b h

-- After the books of an open stream are closed, nothing is kept.
closed_balanced :
    (name : String) (body : Body) (first : Option String) (m : Option RetryManager)
    (b : CircuitBreaker) (r : Router)
    → (settle_stream body first b).probes_in_flight ≤ (r.breakers name).probes_in_flight
    → IsBalanced r (
        close_stream name body first
          (record (take_slot name (with_breaker name b r)) { retry_manager = m }))
unfolding close_stream with_breaker take_slot free_slot
closed_balanced name body first m b r le = record {
  probes = λ n. ground arith;
  slots = λ n. ground arith;
  settings = refl;
}

-- What the opening leads to: an open stream that keeps its slots, or an error with balanced books.
abbrev pub Opens :
    String → CircuitBreaker → Router → Option (Router × Outcome (Option String)) → Type 0
Opens name b r o =
    ((first : Option String) × (m : Option RetryManager) × (o
        ≡ some (
          record (take_slot name (with_breaker name b r)) { retry_manager = m },
          returned first,
        )))
    ⊎ ((e : Exc) × (p : Router) × (o ≡ some (p, raised e)) × IsBalanced r p)

refused-Opens :
    (name : String) (e : Exc) (b : CircuitBreaker) (r : Router)
    → (release b).probes_in_flight ≤ (r.breakers name).probes_in_flight
    → Opens name b r (refuse name e (with_breaker name b r))
unfolding refuse
refused-Opens name e b r le =
    let (x, eq, k) = refuse_balanced {A = Option String} name e b r le in
    inr (
      e,
      _,
      refl,
      subst (λ (z : Router × Outcome (Option String)). IsBalanced r z.0)
          (sym (some-injective _ _ eq)) k,
    )

opened-Opens :
    (name : String) (call : Call (Option String)) (b : CircuitBreaker) (r : Router)
    (m : Option RetryManager) (o : Outcome (Option String))
    → (settle call o b).probes_in_flight ≤ (r.breakers name).probes_in_flight
    → Opens name b r (opened name call (take_slot name (with_breaker name b r)) (some (m, o)))
unfolding opened finish
opened-Opens name call b r m (returned first) le = inl (first, m, refl)
opened-Opens name call b r m (raised e) le =
    let (x, eq, k) = finish_balanced name call b r m (raised e) le in
    inr (
      e,
      _,
      refl,
      subst (λ (z : Router × Outcome (Option String)). IsBalanced r z.0)
          (sym (some-injective _ _ eq)) k,
    )

pub open_balanced :
    (name : String) (d : Deadline) (attempts : ℕ) (call : Call (Option String)) (r : Router)
    → (allow call.asked (r.breakers name)).1 ≡ true
    → Opens name (allow call.asked (r.breakers name)).0 r (
        open_stream name d attempts call
          (with_breaker name (allow call.asked (r.breakers name)).0 r))
unfolding open_stream answer take_slot
open_balanced name d attempts call r h =
    let b = (allow call.asked (r.breakers name)).0 in
    let q = with_breaker name b r in
    let released = allow_released call.asked (r.breakers name) h in
    elim (Check-cases (check d call.checked)) [
      | inl c ↦ rw (c, open_stream) (refused-Opens name deadline_error b r released)
      | inr c ↦ elim (Option-cases call.admission) [
        | inr (e, a) ↦ rw (c, a, open_stream) (refused-Opens name e b r released)
        | inl a ↦
            let (y, ran) =
              answer-total (take_slot name q).retry_manager d
                ((take_slot name q).config.timeout_for name) attempts call.tries in
            rw (c, a, ran, open_stream)
              (opened-Opens name call b r y.0 y.1 (settle_balanced call y.1 (r.breakers name) h))
      ]
    ]

-- What the loop does from a state on: it ends, and leaves the books balanced.
abbrev Ends : Router → Option (Router × Streamed) → Type 0
Ends r o = (x : Router × Streamed) × (o ≡ some x) × IsBalanced r x.0

later-Ends : (r q : Router) (o : Option (Router × Streamed)) → IsBalanced r q → Ends q o → Ends r o
later-Ends r q o v (x, eq, w) = (x, eq, chain r q x.0 v w)

stream_from_balanced :
    (env : ℕ → Call (Option String)) (body : ℕ → Body) (d : Deadline) (single : Bool)
    (names : List String) (i : ℕ) (last : Option Exc) (failures : List (String × ErrorKind))
    (r : Router)
    → Ends r (stream_from env body d single i last failures names r)
unfolding stream_from
stream_from_balanced env body d single [] i last failures r = (_, refl, same r)
stream_from_balanced env body d single (name ∷ rest) i last failures r =
    let asked = allow (env i).asked (r.breakers name) in
    elim (Bool-cases asked.1) [
      | inr h ↦
          rw (h, stream_from)
            (later-Ends r (with_breaker name asked.0 r) _ (refusal_balanced name (env i).asked r h)
              (stream_from_balanced env body d single rest (i + 1) _ _
                (with_breaker name asked.0 r)))
      | inl h ↦ elim (open_balanced name d (attempts_for r.config rest) (env i) r h) [
        | inl (first, m, eq) ↦
            rw (h, eq, stream_from)
              (
                _,
                refl,
                closed_balanced name (body i) first m asked.0 r
                    (settle_stream_balanced (body i) first (env i).asked (r.breakers name) h),
              )
        | inr (e, p, eq, v) ↦ elim (Bool-cases (goes_on r.config e)) [
          | inl g ↦
              rw (h, eq, g, stream_from)
                (later-Ends r (count_failover rest p) _ (counted_balanced rest r p v)
                  (stream_from_balanced env body d single rest (i + 1) _ _ (count_failover rest p)))
          | inr g ↦ rw (h, eq, g, stream_from) (_, refl, v)
        ]
      ]
    ]

-- A streamed request always ends, and however it ends, by itself, with an error or because the
-- client has gone, it has given back every probe slot and every rate-limit slot that it took.
pub stream-IsBalanced :
    (env : ℕ → Call (Option String)) (body : ℕ → Body) (d : Deadline) (candidates : List String)
    (r : Router)
    → (x : Router × Streamed) × (stream env body d candidates r ≡ some x) × IsBalanced r x.0
unfolding stream
stream-IsBalanced env body d candidates r =
    stream_from_balanced env body d (is_single candidates) candidates 0 none [] r
