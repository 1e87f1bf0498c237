-- ===== src/Drain.antt =====
-- src/coreai/drain.py: the kill switch. `Event` is the flag `idle`; the times are natural numbers.
-- The middleware is modelled by the decisions it makes on a request and by the calls of `enter`
-- and `leave` around the application; the bytes of its 503 response are left out.
mod Accounting
mod Tests
use text.Mathlib.Text.{starts_with}
use core_ai_protocol_suite.Prelude.{
  ℕ, ◌+◌, ◌-◌, String, Bool, true, false, not, ◌&&◌, ◌||◌, Option, none, some, List, [], ◌∷◌, any,
  ◌==◌, if◌then◌else◌,
}

pub record DrainController : Type 0 where
  pub accepting : Bool
  pub in_flight : ℕ
  pub idle : Bool
  pub drain_started_at : Option ℕ

unfoldable pub init : DrainController
init = record { accepting = true; in_flight = 0; idle = true; drain_started_at = none }

unfoldable pub begin_drain : ℕ → DrainController → DrainController
begin_drain now c =
    if c.accepting then record c { accepting = false; drain_started_at = some now } else c

unfoldable pub resume : DrainController → DrainController
resume c = record c { accepting = true; drain_started_at = none }

unfoldable pub enter : DrainController → DrainController
enter c = record c { in_flight = c.in_flight + 1; idle = false }

-- `max(0, in_flight - 1)`, and the flag is set where nothing is left.
unfoldable pub leave : DrainController → DrainController
leave c = record c {
  in_flight = c.in_flight - 1;
  idle = if c.in_flight - 1 == 0 then true else c.idle;
}

abbrev pub always_allowed : List String
always_allowed = "/health" ∷ "/healthz" ∷ "/readyz" ∷ "/v1/admin/" ∷ []

unfoldable pub allowed : String → Bool
allowed path = any (λ prefix. starts_with path prefix) always_allowed

-- What the middleware does with a request: `true` where it is let in, `false` where it is refused
-- with 503. A request of another type than http passes uncounted.
unfoldable pub lets_in : String → DrainController → Bool
unfolding allowed
lets_in path c = c.accepting || allowed path

unfoldable pub arrive : String → DrainController → DrainController × Bool
arrive path c = if lets_in path c then (enter c, true) else (c, false)

-- What happens to a controller, in any order: a request arrives, one that was let in ends, an
-- operator drains or resumes.
pub data Event : Type 0 where
  arrival : String → Event
  departure : Event
  drain : ℕ → Event
  resumption : Event

unfoldable pub step : Event → DrainController → DrainController
step (arrival path) c = (arrive path c).0
step departure c = leave c
step (drain now) c = begin_drain now c
step resumption c = resume c

unfoldable pub run : List Event → DrainController → DrainController
run [] c = c
run (e ∷ es) c = run es (step e c)
