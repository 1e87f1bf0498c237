-- ===== src/Limiter/Providers.antt =====
-- src/coreai/limiter.py, GlobalRateLimiter: the limiters by the name of their provider.
use core_ai_protocol_suite.Dict
use core_ai_protocol_suite.Dict.{Dict}
use core_ai_protocol_suite.Prelude.{
  ℕ, ◌+◌, ◌-◌, ◌/◌, String, String-discrete, Option, none, some, leb, if◌then◌else◌,
}
use core_ai_protocol_suite.Limiter.{
  TokenBucket, refill, ProviderLimiter, Entry, waits, enter, admit, release,
}

abbrev GlobalRateLimiter : Type 0
GlobalRateLimiter = Dict String ProviderLimiter

-- The name is registered with a limiter that `init` made; one that was there is replaced.
unfoldable register_provider : String → ProviderLimiter → GlobalRateLimiter → GlobalRateLimiter
register_provider name l g = Dict.put String-discrete name l g

unfoldable get_limiter : String → GlobalRateLimiter → Option ProviderLimiter
get_limiter name g = Dict.get String-discrete name g

kept : String → GlobalRateLimiter → ProviderLimiter × Entry → GlobalRateLimiter × Entry
kept name g (l, e) = (Dict.put String-discrete name l g, e)

-- The first part of `acquire`: a provider without a limiter does not wait.
acquire_from :
    Option ProviderLimiter
    → String
    → ℕ
    → ℕ
    → ℕ
    → Option ℕ
    → GlobalRateLimiter
    → GlobalRateLimiter × Entry
unfolding kept
acquire_from none name asked later tokens budget g = (g, waits 0)
acquire_from (some l) name asked later tokens budget g =
    kept name g (enter asked later tokens budget l)

unfoldable acquire : String → ℕ → ℕ → ℕ → Option ℕ → GlobalRateLimiter → GlobalRateLimiter × Entry
unfolding acquire_from get_limiter
acquire name asked later tokens budget g =
    acquire_from (get_limiter name g) name asked later tokens budget g

update_with :
    (ProviderLimiter → ProviderLimiter)
    → Option ProviderLimiter
    → String
    → GlobalRateLimiter
    → GlobalRateLimiter
update_with f none name g = g
update_with f (some l) name g = Dict.put String-discrete name (f l) g

-- The end of `acquire`, after the wait.
unfoldable finish_acquire : String → ℕ → GlobalRateLimiter → GlobalRateLimiter
unfolding update_with get_limiter
finish_acquire name waited g = update_with (admit waited) (get_limiter name g) name g

unfoldable release_provider : String → GlobalRateLimiter → GlobalRateLimiter
unfolding update_with get_limiter
release_provider name g = update_with release (get_limiter name g) name g

-- `wait_until_available`: a shortage is not deducted, and the wait is rounded up.
unfoldable wait_until_available : ℕ → ℕ → TokenBucket → TokenBucket × ℕ
unfolding refill
wait_until_available now tokens b =
    let c = refill now b in
    if leb (c.spent + tokens) c.capacity
    then (record c { spent = c.spent + tokens }, 0)
    else (c, (c.spent + tokens - c.capacity + (c.refill_rate - 1)) / c.refill_rate)
