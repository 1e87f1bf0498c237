-- ===== src/Deadline.antt =====
-- src/coreai/deadline.py: one time budget shared by every attempt of a request. Times are natural
-- numbers of microseconds; `max(0.0, end - clock())` is the subtraction on ℕ.
mod Budget
mod Tests
use core_ai_protocol_suite.Prelude.{
  ℕ, ◌+◌, ◌-◌, min, Bool, true, false, Option, none, some, leb, if◌then◌else◌,
}

pub record Deadline : Type 0 where
  pub end : Option ℕ

-- The constructor, at its reading of the clock.
unfoldable pub init : Option ℕ → ℕ → Deadline
init none now = record { end = none }
init (some seconds) now = record { end = some (now + seconds) }

left : Option ℕ → ℕ → Option ℕ
left none now = none
left (some end) now = some (end - now)

unfoldable pub remaining : Deadline → ℕ → Option ℕ
unfolding left
remaining d now = left d.end now

past : Option ℕ → ℕ → Bool
past none now = false
past (some end) now = leb end now

unfoldable pub expired : Deadline → ℕ → Bool
unfolding past
expired d now = past d.end now

pub data Check : Type 0 where
  in_time deadline_exceeded : Check

unfoldable pub check : Deadline → ℕ → Check
unfolding expired
check d now = if expired d now then deadline_exceeded else in_time

clamp_to : Option ℕ → Option ℕ → Option ℕ
clamp_to none seconds = seconds
clamp_to (some r) none = some r
clamp_to (some r) (some s) = some (min s r)

unfoldable pub clamp : Deadline → Option ℕ → ℕ → Option ℕ
unfolding remaining clamp_to
clamp d seconds now = clamp_to (remaining d now) seconds
