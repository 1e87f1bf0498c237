-- ===== src/Retry/Backoff.antt =====
-- The waits between attempts (coreai/retry.py, compute_wait and the handler).
use native.Mathlib.Nat.{pow-suc, mul-le-mul_left}
use core_ai_protocol_suite.Prelude.{
  ℕ, zero, suc, ◌+◌, ◌-◌, ◌*◌, ◌/◌, ◌^◌, ◌≤◌, ◌<◌, ◌≡◌, Bool, true, false, none, some, arith,
}
use core_ai_protocol_suite.Errors.{ErrorInfo, retryable}
use core_ai_protocol_suite.Deadline.{Deadline, remaining}
use core_ai_protocol_suite.Retry.{
  RetryConfig, backoff, jittered, compute_wait, retry_wait, draw_unit,
}

mul-le : (draw n : ℕ) → draw < draw_unit → draw * n ≤ 1_000_000 * n
mul-le draw n h = grind arith

jittered_bounds :
    (b : Bool) (draw n : ℕ)
    → draw < draw_unit
    → (n / 2 ≤ jittered b draw n) × (jittered b draw n ≤ n)
unfolding jittered
jittered_bounds true draw n h = omega (arith, mul-le draw n h)
jittered_bounds false draw n h = ground arith

-- With no Retry-After the wait is at least half of the capped exponential backoff and at most the
-- whole of it, so never above `max_wait`.
pub compute_wait-backoff :
    (attempt : ℕ) (info : ErrorInfo) (c : RetryConfig) (draw wait : ℕ)
    → info.retry_after ≡ none
    → draw < draw_unit
    → compute_wait attempt info c draw ≡ some wait
    → (backoff c attempt / 2 ≤ wait) × (wait ≤ backoff c attempt) × (wait ≤ c.max_wait)
unfolding compute_wait
compute_wait-backoff attempt info c draw wait none_asked lt h =
    ground (arith, jittered_bounds c.jitter draw (backoff c attempt))

grow_by : (p e : ℕ) → 1 ≤ e → p ≤ p * e
grow_by p e h = grind arith

grow : (b e k : ℕ) → 1 ≤ e → b * e ^ k ≤ b * e ^ suc k
grow b e k h = rw pow-suc (mul-le-mul_left b (grow_by (e ^ k) e h))

last : (k : ℕ) → suc k - 1 ≡ k
last k = omega arith

next : (k : ℕ) → suc k + 1 - 1 ≡ suc k
next k = omega arith

-- The caps of consecutive attempts grow, as long as the base is not 0, up to `max_wait`.
pub backoff_mono :
    (c : RetryConfig) (attempt : ℕ)
    → 1 ≤ attempt
    → 1 ≤ c.exponential_base
    → (backoff c attempt ≤ backoff c (attempt + 1)) × (backoff c (attempt + 1) ≤ c.max_wait)
backoff_mono c zero pos base = absurd (omega arith)
backoff_mono c (suc k) pos base =
    rw (last k, next k) (omega (arith, grow c.base_wait c.exponential_base k base))

asked_wait :
    (attempt : ℕ) (info : ErrorInfo) (c : RetryConfig) (draw wait : ℕ)
    → draw < draw_unit
    → compute_wait attempt info c draw ≡ some wait
    → wait ≤ c.max_wait
unfolding compute_wait
asked_wait attempt info c draw wait lt h =
    ground (arith, jittered_bounds c.jitter draw (backoff c attempt))

-- A retry is allowed only for a retryable kind, below the last attempt, with the wait that the
-- provider asked for if it asked, a wait of at most `max_wait`, and one that ends before the
-- deadline.
pub retry_wait_sound :
    (c : RetryConfig) (d : Deadline) (attempt : ℕ) (info : ErrorInfo) (draw now end wait : ℕ)
    → draw < draw_unit
    → d.end ≡ some end
    → retry_wait c (some d) attempt info draw now ≡ some wait
    → (retryable info.kind ≡ true)
      × (attempt < c.max_attempts)
      × (wait ≤ c.max_wait)
      × (now + wait < end)
unfolding retry_wait remaining
retry_wait_sound c d attempt info draw now end wait lt e h =
    ground (arith, asked_wait attempt info c draw wait)
