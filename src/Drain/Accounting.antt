-- ===== src/Drain/Accounting.antt =====
-- The count of requests in flight (coreai/drain.py).
use core_ai_protocol_suite.Prelude.{
  ℕ, suc, ◌+◌, ◌-◌, ◌≡◌, false, List, [], ◌∷◌, All, arith, ◌∙◌, ◌==◌, is_some, not,
}
use core_ai_protocol_suite.Drain.{
  DrainController, init, begin_drain, resume, enter, leave, lets_in, arrive, allowed, Event,
  arrival, departure, drain, resumption, step, run,
}

-- The idle flag is set exactly when nothing is in flight, and the start of a drain is noted exactly
-- while the controller refuses.
pub record IsAccounted (c : DrainController) : Type 0 where
  pub idle_exact : c.idle ≡ (c.in_flight == 0)
  pub noted : is_some c.drain_started_at ≡ not c.accepting

pub init-IsAccounted : IsAccounted init
unfolding init
init-IsAccounted = ground arith

step-IsAccounted : (e : Event) (c : DrainController) → IsAccounted c → IsAccounted (step e c)
unfolding step arrive enter leave begin_drain resume
step-IsAccounted (arrival path) c v = ground arith
step-IsAccounted departure c v = ground arith
step-IsAccounted (drain now) c v = ground arith
step-IsAccounted resumption c v = ground arith

-- Whatever requests come and go and whenever an operator drains or resumes, the idle flag that
-- `wait_idle` waits for is set exactly when no request is in flight, and the time of the drain is
-- noted exactly while the controller refuses.
pub run-IsAccounted :
    (es : List Event) (c : DrainController) → IsAccounted c → IsAccounted (run es c)
unfolding run
run-IsAccounted [] c v = v
run-IsAccounted (e ∷ es) c v = run-IsAccounted es (step e c) (step-IsAccounted e c v)

-- An event while draining: no resumption, and no request to a path that is always served.
abbrev pub IsQuiet : Event → Type 0
IsQuiet (arrival path) = allowed path ≡ false
IsQuiet departure = Unit
IsQuiet (drain now) = Unit
IsQuiet resumption = ⊥

abbrev pub departures : List Event → ℕ
departures [] = 0
departures (departure ∷ es) = suc (departures es)
departures (e ∷ es) = departures es

quiet_step :
    (e : Event) (c : DrainController)
    → c.accepting ≡ false
    → IsQuiet e
    → ((step e c).accepting ≡ false)
      × ((step e c).in_flight ≡ c.in_flight - departures (e ∷ []))
      × ((step e c).drain_started_at ≡ c.drain_started_at)
unfolding step arrive lets_in leave begin_drain
quiet_step (arrival path) c off q = ground arith
quiet_step departure c off q = ground arith
quiet_step (drain now) c off q = ground arith
quiet_step resumption c off q = elim q [ ]

departures-cons :
    (e : Event) (es : List Event) → departures (e ∷ es) ≡ departures (e ∷ []) + departures es
departures-cons departure es = omega arith
departures-cons (arrival path) es = omega arith
departures-cons (drain now) es = omega arith
departures-cons resumption es = omega arith

-- Once draining, and as long as nobody resumes and no always-served path is asked for, no request
-- is let in: the number in flight falls by one with each departure and never grows, and a second
-- drain does not move its start.
pub run-drained :
    (es : List Event) (c : DrainController)
    → c.accepting ≡ false
    → All IsQuiet es
    → ((run es c).accepting ≡ false)
      × ((run es c).in_flight ≡ c.in_flight - departures es)
      × ((run es c).drain_started_at ≡ c.drain_started_at)
unfolding run
run-drained [] c off q = ground arith
run-drained (e ∷ es) c off q =
    let first = quiet_step e c off q.0 in
    let rest = run-drained es (step e c) first.0 q.1 in
    (rest.0, omega (arith, rest.1, first.1, departures-cons e es), rest.2 ∙ first.2)
