-- ===== src/Limiter.antt =====
-- src/coreai/limiter.py: the token bucket and the limiter of one provider.
--
-- A token is 60 000 000 units and times are microseconds, so that a rate per minute is as many
-- units per microsecond and no division is needed. The source keeps `tokens`, which is at most
-- `capacity` and may be negative; here `spent` is `capacity - tokens`, a natural number, and the
-- `min` with the capacity is the subtraction that stops at 0. A wait is rounded up to a microsecond.
--
-- `acquire` awaits twice, and other callers run in between: it is the step `enter`, which ends with
-- a rejection or a wait, and after the wait `admit`, or `abandon` where the caller is cancelled.
-- `slots` counts what the semaphore has left, and `waiting` the callers between the two steps.
mod Slots
mod Providers
mod Rejection
mod Tests
use core_ai_protocol_suite.Prelude.{
  ℕ, ◌+◌, ◌-◌, ◌*◌, ◌/◌, min, max, Bool, true, false, Option, none, some, ltb, leb, ◌==◌,
  if◌then◌else◌, List, [], ◌∷◌,
}

pub record TokenBucket : Type 0 where
  pub capacity : ℕ
  pub refill_rate : ℕ
  pub spent : ℕ
  pub last_refill : ℕ

abbrev pub unit : ℕ
unit = 60_000_000

-- A bucket for so many tokens a minute, full.
unfoldable pub bucket : ℕ → ℕ → TokenBucket
bucket per_minute now = record {
  capacity = per_minute * unit;
  refill_rate = per_minute;
  spent = 0;
  last_refill = now;
}

unfoldable pub refill : ℕ → TokenBucket → TokenBucket
refill now b = record b {
  spent = b.spent - (now - b.last_refill) * b.refill_rate;
  last_refill = now;
}

unfoldable pub consume : ℕ → ℕ → TokenBucket → TokenBucket × Bool
unfolding refill
consume now tokens b =
    let c = refill now b in
    if leb (c.spent + tokens) c.capacity
    then (record c { spent = c.spent + tokens }, true)
    else (c, false)

-- `-self.tokens / self.refill_rate`, rounded up.
unfoldable pub wait_for : TokenBucket → ℕ
wait_for b =
    if leb b.spent b.capacity
    then 0
    else (b.spent - b.capacity + (b.refill_rate - 1)) / b.refill_rate

unfoldable pub reserve : ℕ → ℕ → TokenBucket → TokenBucket × ℕ
reserve now tokens b =
    let c = refill now b in
    let charged = record c { spent = c.spent + min tokens c.capacity } in
    (charged, wait_for charged)

unfoldable pub refund : ℕ → TokenBucket → TokenBucket
refund tokens b = record b { spent = b.spent - min tokens b.capacity }

pub record ProviderLimiter : Type 0 where
  pub concurrent_requests : ℕ
  pub request_bucket : TokenBucket
  pub token_bucket : TokenBucket
  pub slots : ℕ
  pub waiting : ℕ
  pub active_requests : ℕ
  pub total_requests : ℕ
  pub total_waits : ℕ
  pub total_rejected : ℕ

-- The constructor, with the checks of `RateLimitConfig`; `none` is the ValueError.
unfoldable pub init : ℕ → ℕ → ℕ → ℕ → Option ProviderLimiter
init requests_per_minute tokens_per_minute concurrent now =
    if ltb requests_per_minute 1
    then none
    else if ltb tokens_per_minute 1
    then none
    else if ltb concurrent 1
    then none
    else some (record {
      concurrent_requests = concurrent;
      request_bucket = bucket requests_per_minute now;
      token_bucket = bucket tokens_per_minute now;
      slots = concurrent;
      waiting = 0;
      active_requests = 0;
      total_requests = 0;
      total_waits = 0;
      total_rejected = 0;
    })

pub data Entry : Type 0 where
  -- RateLimited, with its `retry_after`
  rate_limited : Option ℕ → Entry
  -- holding a slot and both reservations, to wait so long
  waits : ℕ → Entry

exceeds : Option ℕ → ℕ → Bool
exceeds none wait = false
exceeds (some budget) wait = ltb budget wait

-- From the slot on: both reservations, and the rejection that undoes them. `budget` is what
-- `left()` gives after them.
unfoldable pub enter_with : ℕ → ℕ → ℕ → Option ℕ → ProviderLimiter → ProviderLimiter × Entry
unfolding exceeds
enter_with asked later tokens budget l =
    let requests = reserve asked unit l.request_bucket in
    let used = reserve later tokens l.token_bucket in
    let wait = max requests.1 used.1 in
    if exceeds budget wait
    then (
      record l {
        request_bucket = refund unit requests.0;
        token_bucket = refund tokens used.0;
        total_rejected = l.total_rejected + 1;
      },
      rate_limited (some wait),
    )
    else (
      record l {
        request_bucket = requests.0;
        token_bucket = used.0;
        slots = l.slots - 1;
        waiting = l.waiting + 1;
      },
      waits wait,
    )

-- The first part of `acquire`, once a slot is free or the wait for one has timed out.
unfoldable pub enter : ℕ → ℕ → ℕ → Option ℕ → ProviderLimiter → ProviderLimiter × Entry
enter asked later tokens budget l =
    if l.slots == 0
    then (record l { total_rejected = l.total_rejected + 1 }, rate_limited none)
    else enter_with asked later tokens budget l

-- The end of `acquire`, after a caller has waited.
unfoldable pub admit : ℕ → ProviderLimiter → ProviderLimiter
admit waited l = record l {
  waiting = l.waiting - 1;
  active_requests = l.active_requests + 1;
  total_requests = l.total_requests + 1;
  total_waits = l.total_waits + waited;
}

-- A caller is cancelled while it waits.
unfoldable pub abandon : ℕ → ProviderLimiter → ProviderLimiter
abandon tokens l = record l {
  request_bucket = refund unit l.request_bucket;
  token_bucket = refund tokens l.token_bucket;
  slots = l.slots + 1;
  waiting = l.waiting - 1;
}

unfoldable pub release : ProviderLimiter → ProviderLimiter
release l =
    if ltb 0 l.active_requests
    then record l { active_requests = l.active_requests - 1; slots = l.slots + 1 }
    else l

pub data Event : Type 0 where
  entering : ℕ → ℕ → ℕ → Option ℕ → Event
  admission abandonment : ℕ → Event
  releasing : Event

-- A caller can be admitted or cancelled only if one waits.
unfoldable pub step : Event → ProviderLimiter → ProviderLimiter
step (entering asked later tokens budget) l = (enter asked later tokens budget l).0
step (admission waited) l = if l.waiting == 0 then l else admit waited l
step (abandonment tokens) l = if l.waiting == 0 then l else abandon tokens l
step releasing l = release l

unfoldable pub run : List Event → ProviderLimiter → ProviderLimiter
run [] l = l
run (e ∷ es) l = run es (step e l)
