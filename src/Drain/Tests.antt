-- ===== src/Drain/Tests.antt =====
-- A drain (coreai/drain.py) and instances of the theorems.
use core_ai_protocol_suite.Prelude.{◌-◌, ◌≡◌, refl, false, some, [], ◌∷◌}
use core_ai_protocol_suite.Drain.{
  DrainController, init, allowed, arrival, departure, drain, run, arrive, step, lets_in, enter,
  leave, begin_drain, step, lets_in, enter, leave, begin_drain,
}
use core_ai_protocol_suite.Drain.Accounting.{departures, run-drained}

-- Two requests are let in; after the drain a probe still is, and a completion is not.
a_drain :
    run
      (arrival "/v1/completions"
        ∷ arrival "/v1/completions"
        ∷ drain 7
        ∷ arrival "/healthz"
        ∷ arrival "/v1/completions"
        ∷ departure
        ∷ [])
      init
    ≡ record { accepting = false; in_flight = 2; idle = false; drain_started_at = some 7 }
unfolding run step arrive lets_in enter leave begin_drain init
a_drain = refl

abbrev draining : DrainController
draining = record { accepting = false; in_flight = 2; idle = false; drain_started_at = some 7 }

refused : allowed "/v1/completions" ≡ false
unfolding allowed
refused = refl

run-drained_example :
    ((run (arrival "/v1/completions" ∷ departure ∷ drain 9 ∷ []) draining).accepting ≡ false)
    × ((run (arrival "/v1/completions" ∷ departure ∷ drain 9 ∷ []) draining).in_flight
        ≡ 2 - departures (arrival "/v1/completions" ∷ departure ∷ drain 9 ∷ []))
    × ((run (arrival "/v1/completions" ∷ departure ∷ drain 9 ∷ []) draining).drain_started_at
        ≡ some 7)
run-drained_example =
    run-drained (arrival "/v1/completions" ∷ departure ∷ drain 9 ∷ []) draining refl
      (refused, (tt, (tt, tt)))
