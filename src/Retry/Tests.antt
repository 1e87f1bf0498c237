-- ===== src/Retry/Tests.antt =====
-- Sample runs of the retry loop (coreai/retry.py) and instances of the theorems.
use core_ai_protocol_suite.Prelude.{
  ℕ, ◌+◌, ◌≤◌, ◌≡◌, refl, true, false, none, some, [], arith, if◌then◌else◌, ltb,
}
use core_ai_protocol_suite.Deadline.{Deadline, remaining}
use core_ai_protocol_suite.Errors.{Exc, absent, int, foreign, ErrorInfo, overloaded, retryable}
use core_ai_protocol_suite.Retry.{
  RetryConfig, compute_wait, backoff, returned, raised, Attempt, Run, retry_wait, run_with_retry,
}
use core_ai_protocol_suite.Retry.Attempts.{IsComplete, run_with_retry-IsComplete}
use core_ai_protocol_suite.Retry.Backoff.{backoff_mono}

abbrev defaults : RetryConfig
defaults = record {
  max_attempts = 3;
  base_wait = 1_000_000;
  max_wait = 30_000_000;
  exponential_base = 2;
  jitter = true;
}

abbrev busy : Exc
busy = record {
  own_class = foreign;
  status_code = int 503;
  status = absent;
  code = absent;
  retry_after = absent;
  response = none;
  is_timeout_error = false;
  is_connection_error = false;
  class_names = [];
  message = "";
}

-- The first two calls fail with 503, and the third answers.
abbrev third_time : ℕ → Attempt ℕ
third_time n = record {
  outcome = if ltb n 3 then raised busy else returned 42;
  draw = 500_000;
  now = 100;
}

run_with_retry-IsComplete_example :
    (r : Run ℕ) × (run_with_retry defaults none third_time ≡ some r)
    × IsComplete defaults none third_time 0 r
run_with_retry-IsComplete_example = run_with_retry-IsComplete defaults none third_time

abbrev busy_info : ErrorInfo
busy_info = record { kind = overloaded; status = some 503; retry_after = none }

second_wait : compute_wait 2 busy_info defaults 500_000 ≡ some 1_500_000
unfolding compute_wait
second_wait = refl

backoff_mono_example :
    (backoff defaults 2 ≤ backoff defaults (2 + 1)) × (backoff defaults (2 + 1) ≤ 30_000_000)
backoff_mono_example = backoff_mono defaults 2 (omega arith) (omega arith)

abbrev soon : Deadline
soon = record { end = some 5_000_000 }

decided : retry_wait defaults (some soon) 2 busy_info 500_000 100 ≡ some 1_500_000
unfolding retry_wait compute_wait retryable remaining
decided = refl
