-- ===== src/Limiter/Rejection.antt =====
-- What a rejection and a wait cost (coreai/limiter.py, acquire and reserve).
use native.Mathlib.Nat.{lt-div-mul-add}
use core_ai_protocol_suite.Prelude.{ℕ, ◌+◌, ◌≤◌, ◌-◌, ◌*◌, ◌/◌, ◌≡◌, refl, ◌⊎◌, Option, arith}
use core_ai_protocol_suite.Limiter.{
  TokenBucket, refill, wait_for, reserve, refund, unit, ProviderLimiter, rate_limited, enter,
  enter_with,
}

-- A refund right after a reservation leaves the bucket as its refill left it.
refund-reserve :
    (now tokens : ℕ) (b : TokenBucket) → refund tokens (reserve now tokens b).0 ≡ refill now b
unfolding reserve refund refill
refund-reserve now tokens b = ground arith

-- A rejection consumes nothing: but for the count of rejections, the limiter is as it was, with both
-- buckets as they were or brought up to their readings of the clock.
pub enter-rejected :
    (asked later tokens : ℕ) (budget hint : Option ℕ) (l : ProviderLimiter)
    → (enter asked later tokens budget l).1 ≡ rate_limited hint
    → ((enter asked later tokens budget l).0 ≡ record l { total_rejected = l.total_rejected + 1 })
      ⊎ ((enter asked later tokens budget l).0 ≡ record l {
        request_bucket = refill asked l.request_bucket;
        token_bucket = refill later l.token_bucket;
        total_rejected = l.total_rejected + 1;
      })
unfolding enter enter_with
enter-rejected asked later tokens budget hint l h =
    ground (
      arith,
      refund-reserve asked unit l.request_bucket,
      refund-reserve later tokens l.token_bucket,
    )

round_up : (n r : ℕ) → 1 ≤ r → n ≤ (n + (r - 1)) / r * r
round_up n r pos = omega (arith, lt-div-mul-add {a = n + (r - 1)} {b = r} (omega arith))

waited_covers :
    (spent capacity rate : ℕ) (b : TokenBucket)
    → 1 ≤ rate
    → b.spent ≡ spent
    → b.capacity ≡ capacity
    → b.refill_rate ≡ rate
    → spent - wait_for b * rate ≤ capacity
unfolding wait_for
waited_covers spent capacity rate b pos s c r = ground (arith, round_up (spent - capacity) rate pos)

elapsed : (now w : ℕ) → now + w - now ≡ w
elapsed now w = omega arith

-- A caller that waits as long as it is told finds its reservation covered, if nothing else is
-- reserved in the meantime.
pub reserve_covered :
    (now tokens : ℕ) (b : TokenBucket)
    → 1 ≤ b.refill_rate
    → (refill (now + (reserve now tokens b).1) (reserve now tokens b).0).spent ≤ b.capacity
unfolding reserve refill
reserve_covered now tokens b pos =
    let c = (reserve now tokens b).0 in
    rw (elapsed now (wait_for c))
      (waited_covers c.spent c.capacity c.refill_rate c pos refl refl refl)
