-- ===== src/Retry.antt =====
-- src/coreai/retry.py: retry with backoff, jitter, Retry-After and a deadline.
--
-- The awaited function, the random draws and the clock are the environment: for attempt number n
-- (from 1) it holds what the call does, the draw of `rng` (in millionths) and the reading of the
-- deadline's clock after the failure. Waits are natural numbers of microseconds, so the halves of
-- the jitter round down. The exponential base is a natural number (the code passes 2.0).
mod Backoff
mod Attempts
pub mod Counters
mod Tests
use mathlib.Core.Option
use native.Mathlib.Decide.{ℕ_discrete}
use core_ai_protocol_suite.Prelude.{
  ◌≡◌, refl, ◌⊎◌, inl, inr, ℕ, zero, suc, ◌+◌, ◌-◌, ◌*◌, ◌/◌, ◌^◌, min, Bool, true, false, ◌&&◌,
  ◌||◌, not, Option, none, some, List, [], ◌∷◌, ltb, leb, ◌==◌, if◌then◌else◌,
}
use core_ai_protocol_suite.Errors.{Exc, ErrorInfo, ErrorKind, retryable, classify, status_of}
use core_ai_protocol_suite.Counter.{Counter, bump}
use core_ai_protocol_suite.Deadline
use core_ai_protocol_suite.Deadline.{Deadline}

pub record RetryConfig : Type 0 where
  pub max_attempts : ℕ
  pub base_wait : ℕ
  pub max_wait : ℕ
  pub exponential_base : ℕ
  pub jitter : Bool

abbrev pub draw_unit : ℕ
draw_unit = 1_000_000

jittered : Bool → ℕ → ℕ → ℕ
jittered true draw backoff = backoff / 2 + draw * backoff / 2 / draw_unit
jittered false draw backoff = backoff

abbrev pub backoff : RetryConfig → ℕ → ℕ
backoff c attempt = min (c.base_wait * c.exponential_base ^ (attempt - 1)) c.max_wait

wait_for : Option ℕ → RetryConfig → ℕ → ℕ → Option ℕ
unfolding jittered
wait_for (some asked) c attempt draw = if leb asked c.max_wait then some asked else none
wait_for none c attempt draw = some (jittered c.jitter draw (backoff c attempt))

unfoldable pub compute_wait : ℕ → ErrorInfo → RetryConfig → ℕ → Option ℕ
unfolding wait_for
compute_wait attempt info c draw = wait_for info.retry_after c attempt draw

pub data Outcome (A : Type 0) : Type 0 where
  returned : A → Outcome A
  raised : Exc → Outcome A

pub Outcome-cases :
    {A : Type 0} (o : Outcome A) → ((a : A) × (o ≡ returned a)) ⊎ ((e : Exc) × (o ≡ raised e))
Outcome-cases (returned a) = inl (a, refl)
Outcome-cases (raised e) = inr (e, refl)

pub record Attempt (A : Type 0) : Type 0 where
  pub outcome : Outcome A
  pub draw : ℕ
  pub now : ℕ

-- What `on_retry` is called with, for one retry.
pub record Note : Type 0 where
  pub attempt : ℕ
  pub exc : Exc
  pub info : ErrorInfo
  pub wait : ℕ

-- The deadline's test: `wait >= remaining` gives up.
fits : Option ℕ → ℕ → Bool
fits none wait = true
fits (some remaining) wait = ltb wait remaining

within_deadline : Option Deadline → ℕ → ℕ → Bool
unfolding fits
within_deadline none now wait = true
within_deadline (some d) now wait = fits (Deadline.remaining d now) wait

allowed_wait : Option ℕ → Option Deadline → ℕ → Option ℕ
unfolding within_deadline
allowed_wait none deadline now = none
allowed_wait (some wait) deadline now =
    if within_deadline deadline now wait then some wait else none

-- The handler's chain of `raise`: the wait before the next attempt, or `none` where it raises.
unfoldable pub retry_wait : RetryConfig → Option Deadline → ℕ → ErrorInfo → ℕ → ℕ → Option ℕ
unfolding allowed_wait
retry_wait c deadline attempt info draw now =
    if not (retryable info.kind) || leb c.max_attempts attempt
    then none
    else allowed_wait (compute_wait attempt info c draw) deadline now

-- One whole run: what came back, and the retries noted, in order.
pub record Run (A : Type 0) : Type 0 where
  pub outcome : Outcome A
  pub notes : List Note

module _ {A : Type 0} where
  note_first : Note → Option (Run A) → Option (Run A)
  note_first n none = none
  note_first n (some r) = some (record r { notes = n ∷ r.notes })

  -- After attempt number `attempt` raised `e`: raise, or wait and go on with `rest`.
  unfoldable pub handle :
      RetryConfig → Option Deadline → ℕ → Exc → ℕ → ℕ → Option (Run A) → Option (Run A)
  unfolding note_first
  handle c deadline attempt e draw now rest =
      elim (retry_wait c deadline attempt (classify e) draw now) [
        | none ↦ some (record { outcome = raised e; notes = [] })
        | some wait ↦
            note_first (record { attempt = attempt; exc = e; info = classify e; wait = wait }) rest
      ]

  -- The loop, with fuel; `attempt` counts the calls made.
  unfoldable pub retry_loop :
      ℕ → RetryConfig → Option Deadline → (ℕ → Attempt A) → ℕ → Option (Run A)
  unfolding handle
  retry_loop zero c deadline env attempt = none
  retry_loop (suc fuel) c deadline env attempt =
      let rest = retry_loop fuel c deadline env (attempt + 1) in
      elim ((env (attempt + 1)).outcome) [
        | returned a ↦ some (record { outcome = returned a; notes = [] })
        | raised e ↦
            handle c deadline (attempt + 1) e (env (attempt + 1)).draw (env (attempt + 1)).now rest
      ]

  -- `max_attempts` rounds are enough, and one where that is 0.
  unfoldable pub run_with_retry : RetryConfig → Option Deadline → (ℕ → Attempt A) → Option (Run A)
  unfolding retry_loop
  run_with_retry c deadline env = retry_loop (suc c.max_attempts) c deadline env 0

pub ErrorKind-discrete : Discrete ErrorKind
ErrorKind-discrete = hlevel

pub record RetryManager : Type 0 where
  pub config : RetryConfig
  pub total_retries : ℕ
  pub total_failures : ℕ
  pub retries_by_kind : Counter ErrorKind
  pub retries_by_status : Counter ℕ

unfoldable pub init : RetryConfig → RetryManager
init c = record {
  config = c;
  total_retries = 0;
  total_failures = 0;
  retries_by_kind = [];
  retries_by_status = [];
}

bump_status : Option ℕ → Counter ℕ → Counter ℕ
bump_status none m = m
bump_status (some s) m = bump ℕ_discrete s m

-- The callback `note` of `execute`.
unfoldable pub note : RetryManager → Note → RetryManager
unfolding bump_status
note m n = record m {
  total_retries = m.total_retries + 1;
  retries_by_kind = bump ErrorKind-discrete n.info.kind m.retries_by_kind;
  retries_by_status = bump_status (status_of n.exc) m.retries_by_status;
}

unfoldable pub note_all : RetryManager → List Note → RetryManager
note_all m [] = m
note_all m (n ∷ ns) = note_all (note m n) ns

-- `max_attempts or self.config.max_attempts`
abbrev pub effective : RetryConfig → Option ℕ → RetryConfig
effective c none = c
effective c (some zero) = c
effective c (some (suc n)) = record c { max_attempts = suc n }

module _ {A : Type 0} where
  count_failure : Outcome A → RetryManager → RetryManager
  count_failure (returned a) m = m
  count_failure (raised e) m = record m { total_failures = m.total_failures + 1 }

  -- The manager after a run, and what the caller gets.
  unfoldable pub settle : RetryManager → Run A → RetryManager × Outcome A
  unfolding count_failure
  settle m r = (count_failure r.outcome (note_all m r.notes), r.outcome)

  unfoldable pub execute :
      RetryManager
      → Option Deadline
      → Option ℕ
      → (ℕ → Attempt A)
      → Option (RetryManager × Outcome A)
  unfolding settle
  execute m deadline max_attempts env =
      Option.map (settle m) (run_with_retry (effective m.config max_attempts) deadline env)
