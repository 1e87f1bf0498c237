-- ===== src/Router/Balance.antt =====
-- Probe slots and rate-limit slots over a whole request (coreai/router.py, _route).
use core_ai_protocol_suite.Prelude.{
  ℕ, ◌≤◌, ◌+◌, ◌≡◌, refl, ◌∙◌, inl, inr, Bool, ◌⊎◌, String, true, false, Option, none, some, List,
  [], ◌∷◌, arith, Bool-cases, Option-cases,
}
use core_ai_protocol_suite.Errors.{ErrorKind, Exc, classify, breaker_counted}
use core_ai_protocol_suite.Deadline.{Deadline, check, in_time}
use core_ai_protocol_suite.Deadline
use core_ai_protocol_suite.CircuitBreaker.{CircuitBreaker, allow, release}
use core_ai_protocol_suite.CircuitBreaker.Settling.{
  allow_refused, allow_released, allow_succeeded, allow_failed,
}
use core_ai_protocol_suite.Retry.{Outcome, returned, raised, Outcome-cases, RetryManager}
use core_ai_protocol_suite.Retry.Counters.{execute-total}
use core_ai_protocol_suite.Router.{
  Router, Call, Try, Ending, answered, stopped, settle, answer, attempt, kept, with_breaker,
  take_slot, free_slot, refuse, finish, call_provider, count_failover, attempts_for, goes_on,
  route_from, route, deadline_error, is_single,
}

-- No provider's breaker has more probes in flight, and every provider's limiter counts as many
-- active requests; the configuration is untouched.
pub record IsBalanced (r q : Router) : Type 0 where
  pub probes : (n : String) → (q.breakers n).probes_in_flight ≤ (r.breakers n).probes_in_flight
  pub slots : (n : String) → q.active_requests n ≡ r.active_requests n
  pub settings : q.config ≡ r.config

pub same : (r : Router) → IsBalanced r r
same r = record { probes = λ n. omega arith; slots = λ n. refl; settings = refl }

pub chain : (r q p : Router) → IsBalanced r q → IsBalanced q p → IsBalanced r p
chain r q p u v = record {
  probes = λ n. omega (arith, u.probes n, v.probes n);
  slots = λ n. omega (arith, u.slots n, v.slots n);
  settings = v.settings ∙ u.settings;
}

pub refusal_balanced :
    (name : String) (now : ℕ) (r : Router)
    → (allow now (r.breakers name)).1 ≡ false
    → IsBalanced r (with_breaker name (allow now (r.breakers name)).0 r)
unfolding with_breaker
refusal_balanced name now r h = record {
  probes = λ n. ground (arith, allow_refused now (r.breakers name) h);
  slots = λ n. refl;
  settings = refl;
}

pub counted_balanced :
    {B : Type 0} (bs : List B) (r q : Router) → IsBalanced r q → IsBalanced r (count_failover bs q)
unfolding count_failover
counted_balanced [] r q v = v
counted_balanced (b ∷ bs) r q v = record {
  probes = v.probes;
  slots = v.slots;
  settings = v.settings;
}

pub Check-cases : (c : Deadline.Check) → (c ≡ Deadline.deadline_exceeded) ⊎ (c ≡ in_time)
Check-cases Deadline.deadline_exceeded = inl refl
Check-cases in_time = inr refl

module _ {A : Type 0} where
  -- The attempts always end with an outcome.
  pub answer-total :
      (m : Option RetryManager) (d : Deadline) (timeout attempts : ℕ) (tries : ℕ → Try A)
      → (x : Option RetryManager × Outcome A) × (answer m d timeout attempts tries ≡ some x)
  unfolding answer
  answer-total none d timeout attempts tries = (_, refl)
  answer-total (some m) d timeout attempts tries =
      let (x, eq) = execute-total m (some d) (some attempts) (λ n. attempt d timeout (tries n)) in
      (kept x, rw eq)

  pub settle_balanced :
      (call : Call A) (o : Outcome A) (b : CircuitBreaker)
      → (allow call.asked b).1 ≡ true
      → (settle call o (allow call.asked b).0).probes_in_flight ≤ b.probes_in_flight
  unfolding settle
  settle_balanced call (returned a) b h = allow_succeeded call.asked call.settled b h
  settle_balanced call (raised e) b h = elim (Bool-cases (breaker_counted (classify e).kind)) [
    | inl c ↦ rw c (allow_failed call.asked call.settled call.later b h)
    | inr c ↦ rw c (allow_released call.asked b h)
  ]

  pub refuse_balanced :
      (name : String) (e : Exc) (b : CircuitBreaker) (r : Router)
      → (release b).probes_in_flight ≤ (r.breakers name).probes_in_flight
      → (x : Router × Outcome A) × (refuse name e (with_breaker name b r) ≡ some x)
        × IsBalanced r x.0
  unfolding refuse with_breaker
  refuse_balanced name e b r le =
      (_, refl, record { probes = λ n. ground arith; slots = λ n. refl; settings = refl })

  pub finish_balanced :
      (name : String) (call : Call A) (b : CircuitBreaker) (r : Router) (m : Option RetryManager)
      (o : Outcome A)
      → (settle call o b).probes_in_flight ≤ (r.breakers name).probes_in_flight
      → (x : Router × Outcome A) × (finish name call
            (take_slot name (with_breaker name b r))
            (some (m, o))
          ≡ some x)
        × IsBalanced r x.0
  unfolding finish with_breaker take_slot free_slot
  finish_balanced name call b r m o le =
      (_, refl, record { probes = λ n. ground arith; slots = λ n. ground arith; settings = refl })

  pub call_balanced :
      (name : String) (d : Deadline) (attempts : ℕ) (call : Call A) (r : Router)
      → (allow call.asked (r.breakers name)).1 ≡ true
      → (x : Router × Outcome A) × (call_provider name d attempts call
            (with_breaker name (allow call.asked (r.breakers name)).0 r)
          ≡ some x)
        × IsBalanced r x.0
  unfolding call_provider answer finish_balanced settle
  call_balanced name d attempts call r h =
      let b = (allow call.asked (r.breakers name)).0 in
      let q = with_breaker name b r in
      let released = allow_released call.asked (r.breakers name) h in
      elim (Check-cases (check d call.checked)) [
        | inl c ↦
            let (x, eq, k) = refuse_balanced name deadline_error b r released in
            (x, rw (c, call_provider) eq, k)
        | inr c ↦ elim (Option-cases call.admission) [
          | inr (e, a) ↦
              let (x, eq, k) = refuse_balanced name e b r released in
              (x, rw (c, a, call_provider) eq, k)
          | inl a ↦
              let (y, ran) =
                answer-total (take_slot name q).retry_manager d
                  ((take_slot name q).config.timeout_for name) attempts call.tries in
              let (x, eq, k) =
                finish_balanced name call b r y.0 y.1
                  (settle_balanced call y.1 (r.breakers name) h) in
              (x, rw (c, a, ran, call_provider) eq, k)
        ]
      ]

  -- What the loop does from a state on: it ends, and leaves the books balanced.
  abbrev Ends : Router → Option (Router × Ending A) → Type 0
  Ends r o = (x : Router × Ending A) × (o ≡ some x) × IsBalanced r x.0

  later-Ends :
      (r q : Router) (o : Option (Router × Ending A)) → IsBalanced r q → Ends q o → Ends r o
  later-Ends r q o v (x, eq, w) = (x, eq, chain r q x.0 v w)

  route_from_balanced :
      (env : ℕ → Call A) (d : Deadline) (single : Bool) (names : List String) (i : ℕ)
      (last : Option Exc) (failures : List (String × ErrorKind)) (r : Router)
      → Ends r (route_from env d single i last failures names r)
  unfolding route_from
  route_from_balanced env d single [] i last failures r = (_, refl, same r)
  route_from_balanced env d single (name ∷ rest) i last failures r =
      let asked = allow (env i).asked (r.breakers name) in
      elim (Bool-cases asked.1) [
        | inr h ↦
            rw (h, route_from)
              (later-Ends r (with_breaker name asked.0 r) _
                (refusal_balanced name (env i).asked r h)
                (route_from_balanced env d single rest (i + 1) _ _ (with_breaker name asked.0 r)))
        | inl h ↦
            let ((p, o), eq, v) = call_balanced name d (attempts_for r.config rest) (env i) r h in
            elim (Outcome-cases o) [
              | inl (a, k) ↦ ((p, answered name a failures), rw (h, eq, k, route_from) refl, v)
              | inr (e, k) ↦ elim (Bool-cases (goes_on r.config e)) [
                | inl g ↦
                    rw (h, eq, k, g, route_from)
                      (later-Ends r (count_failover rest p) _ (counted_balanced rest r p v)
                        (route_from_balanced env d single rest (i + 1) _ _ (count_failover rest p)))
                | inr g ↦ ((p, stopped e), rw (h, eq, k, g, route_from) refl, v)
              ]
            ]
      ]

-- A request that is not hedged always ends, with an answer or an error, and however it ends, it has
-- given back every probe slot and every rate-limit slot that it took: no breaker has more probes
-- in flight than before, and no limiter another number of active requests.
pub route-IsBalanced :
    {A : Type 0} (env : ℕ → Call A) (d : Deadline) (candidates : List String) (r : Router)
    → (x : Router × Ending A) × (route env d candidates r ≡ some x) × IsBalanced r x.0
unfolding route
route-IsBalanced env d candidates r =
    route_from_balanced env d (is_single candidates) candidates 0 none [] r
