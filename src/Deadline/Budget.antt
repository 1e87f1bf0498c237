-- ===== src/Deadline/Budget.antt =====
-- The budget of a request (coreai/deadline.py).
use core_ai_protocol_suite.Prelude.{
  ℕ, ◌+◌, ◌-◌, ◌≤◌, ◌≡◌, Option, none, some, List, [], ◌∷◌, arith, leb, min, if◌then◌else◌,
}
use core_ai_protocol_suite.Deadline.{
  Deadline, init, remaining, expired, check, in_time, deadline_exceeded, clamp,
}

-- A deadline of `seconds`, read `spent` later, has exactly the rest left and never less than
-- nothing; it has expired exactly when nothing is left, and exactly then `check` raises.
pub remaining-init :
    (seconds now spent : ℕ)
    → (remaining (init (some seconds) now) (now + spent) ≡ some (seconds - spent))
      × (expired (init (some seconds) now) (now + spent) ≡ leb seconds spent)
      × (check (init (some seconds) now) (now + spent)
          ≡ (if leb seconds spent then deadline_exceeded else in_time))
unfolding remaining init expired check
remaining-init seconds now spent = ground arith

-- The time given to one attempt, at most `seconds` and clamped at the reading `now`, ends no later
-- than the deadline, if the deadline has not passed.
pub clamp_fits :
    (d : Deadline) (seconds : Option ℕ) (now end limit : ℕ)
    → d.end ≡ some end
    → now ≤ end
    → clamp d seconds now ≡ some limit
    → now + limit ≤ end
unfolding clamp
clamp_fits d none now end limit h le c = ground arith
clamp_fits d (some s) now end limit h le c = ground arith

-- Attempts one after another: each is granted what `clamp` leaves of its own timeout (the first of
-- a pair), and ends when it is done (the second) or when the grant is used up.
abbrev pub spend : Deadline → List (ℕ × ℕ) → ℕ → ℕ
spend d [] now = now
spend d ((timeout, work) ∷ ts) now =
    spend d ts (elim (clamp d (some timeout) now) [ none ↦ now + work | some g ↦ now + min work g ])

grant_fits :
    (d : Deadline) (timeout work now end : ℕ)
    → d.end ≡ some end
    → now ≤ end
    → elim (clamp d (some timeout) now) [ none ↦ now + work | some g ↦ now + min work g ] ≤ end
unfolding clamp
grant_fits d timeout work now end h le = ground arith

-- However many retries and failovers share a deadline, whatever timeouts they ask for and however
-- long their work would take, they end no later than the deadline.
pub spend-le-end :
    (ts : List (ℕ × ℕ)) (d : Deadline) (now end : ℕ)
    → d.end ≡ some end
    → now ≤ end
    → spend d ts now ≤ end
spend-le-end [] d now end h le = le
spend-le-end ((timeout, work) ∷ ts) d now end h le =
    spend-le-end ts d _ end h (grant_fits d timeout work now end h le)
