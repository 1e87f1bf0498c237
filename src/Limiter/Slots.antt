-- ===== src/Limiter/Slots.antt =====
-- How many requests run at once (coreai/limiter.py, ProviderLimiter).
use core_ai_protocol_suite.Prelude.{◌+◌, ◌≤◌, ◌≡◌, List, [], ◌∷◌, arith}
use core_ai_protocol_suite.Limiter.{
  ProviderLimiter, enter, enter_with, admit, abandon, release, Event, entering, admission,
  abandonment, releasing, step, run,
}

-- Every slot is free, held by a caller that waits, or held by an active request.
abbrev pub IsBooked : ProviderLimiter → Type 0
IsBooked l = l.slots + l.waiting + l.active_requests ≡ l.concurrent_requests

step-IsBooked :
    (e : Event) (l : ProviderLimiter)
    → IsBooked l
    → IsBooked (step e l) × ((step e l).concurrent_requests ≡ l.concurrent_requests)
unfolding step enter enter_with admit abandon release
step-IsBooked (entering asked later tokens budget) l v = ground arith
step-IsBooked (admission waited) l v = ground arith
step-IsBooked (abandonment tokens) l v = ground arith
step-IsBooked releasing l v = ground arith

-- Whatever callers enter, wait, are admitted, rejected or cancelled and release, in any order,
-- every slot stays accounted for, so that at most `concurrent_requests` are active at once.
pub run-IsBooked :
    (es : List Event) (l : ProviderLimiter)
    → IsBooked l
    → IsBooked (run es l) × ((run es l).active_requests ≤ l.concurrent_requests)
unfolding run
run-IsBooked [] l v = (v, omega arith)
run-IsBooked (e ∷ es) l v =
    let s = step-IsBooked e l v in
    let rest = run-IsBooked es (step e l) s.0 in (rest.0, omega (arith, rest.1, s.1))
