-- ===== src/Errors/Decisions.antt =====
-- What a classification decides (coreai/errors.py).
use core_ai_protocol_suite.Prelude.{
  ℕ, ◌≡◌, Bool, true, false, not, ◌&&◌, ◌||◌, some, leb, ◌==◌, arith,
}
use core_ai_protocol_suite.Errors.{
  ErrorKind, retryable, failover, breaker_counted, Exc, deadline_exceeded, foreign, circuit_open,
  quota_exhausted, kind_of_status, status_of, retry_after_of, classify,
}

-- 402 means an exhausted quota, whatever the message says.
quota_exhausted_402 : (s : ℕ) (e : Exc) → s ≡ 402 → quota_exhausted s e ≡ true
unfolding quota_exhausted
quota_exhausted_402 s e h = rw h

-- By an HTTP status alone it is decided what is done with a failure of a provider's own class: a
-- retry exactly for 408, for 429 that tells of no exhausted quota, and from 500 on; a failover
-- exactly for these, 401, 402, 403 and every 429.
pub classify_status :
    (e : Exc) (s : ℕ)
    → e.own_class ≡ foreign
    → status_of e ≡ some s
    → (retryable (classify e).kind
        ≡ (s == 408 || s == 429 && not (quota_exhausted s e) || leb 500 s))
      × (failover (classify e).kind
          ≡ (s == 401 || s == 402 || s == 403 || s == 408 || s == 429 || leb 500 s))
      × ((classify e).status ≡ some s)
      × ((classify e).retry_after ≡ retry_after_of e)
unfolding classify kind_of_status retryable failover
classify_status e s c h = ground (arith, quota_exhausted_402 s e)

abbrev pub is_circuit_open : ErrorKind → Bool
is_circuit_open circuit_open = true
is_circuit_open _ = false

kind_sets :
    (k : ErrorKind)
    → ((retryable k && breaker_counted k) ≡ retryable k)
      × ((retryable k && failover k) ≡ retryable k)
      × (failover k ≡ (breaker_counted k || is_circuit_open k))
unfolding retryable failover breaker_counted
kind_sets k = ground arith

-- Whatever the exception: what is retried is also failed over and counted against the breaker,
-- and what is failed over is counted, except a refusal by a circuit that is open already.
pub classify_sets :
    (e : Exc)
    → ((retryable (classify e).kind && breaker_counted (classify e).kind)
        ≡ retryable (classify e).kind)
      × ((retryable (classify e).kind && failover (classify e).kind) ≡ retryable (classify e).kind)
      × (failover (classify e).kind
          ≡ (breaker_counted (classify e).kind || is_circuit_open (classify e).kind))
classify_sets e = kind_sets (classify e).kind

-- The request's own deadline is final, whatever else the exception carries: no retry, no
-- failover, and nothing counted against the provider.
pub classify_deadline :
    (e : Exc)
    → e.own_class ≡ deadline_exceeded
    → (retryable (classify e).kind ≡ false)
      × (failover (classify e).kind ≡ false)
      × (breaker_counted (classify e).kind ≡ false)
unfolding classify retryable failover breaker_counted
classify_deadline e h = ground arith
