-- ===== src/Limiter/Tests.antt =====
-- A limiter for two requests at once (coreai/limiter.py), and instances of the theorems.
use core_ai_protocol_suite.Prelude.{◌*◌, ◌≤◌, none, List, [], ◌∷◌, arith}
use core_ai_protocol_suite.Limiter.{
  TokenBucket, unit, ProviderLimiter, Event, entering, admission, abandonment, releasing, run,
}
use core_ai_protocol_suite.Limiter.Slots.{IsBooked, run-IsBooked}

abbrev tokens_left : TokenBucket
tokens_left = record { capacity = 10 * unit; refill_rate = 10; spent = 9 * unit; last_refill = 0 }

abbrev limiter : ProviderLimiter
limiter = record {
  concurrent_requests = 2;
  request_bucket = tokens_left;
  token_bucket = tokens_left;
  slots = 2;
  waiting = 0;
  active_requests = 0;
  total_requests = 0;
  total_waits = 0;
  total_rejected = 0;
}

abbrev events : List Event
events =
    entering 0 0 unit none
    ∷ admission 0
    ∷ entering 1 1 unit none
    ∷ abandonment unit
    ∷ releasing
    ∷ []

run-IsBooked_example :
    IsBooked (run events limiter)
    × ((run events limiter).active_requests ≤ limiter.concurrent_requests)
run-IsBooked_example = run-IsBooked events limiter (omega arith)
