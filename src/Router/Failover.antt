-- ===== src/Router/Failover.antt =====
-- Which candidates a request tries, and how it ends (coreai/router.py, _route).
use mathlib.Core.Path.{subst}
use mathlib.Core.List.{append-nil}
use core_ai_protocol_suite.Prelude.{
  ℕ, ◌+◌, ◌≡◌, refl, sym, ap, ◌∙◌, inl, inr, ◌⊎◌, String, Bool, true, false, Option, none, some,
  List, [], ◌∷◌, ◌++◌, map, arith, All, Bool-cases,
}
use core_ai_protocol_suite.Errors.{ErrorKind, circuit_open, Exc, classify, failover}
use core_ai_protocol_suite.Deadline.{Deadline}
use core_ai_protocol_suite.CircuitBreaker.{retry_after, allow}
use core_ai_protocol_suite.Retry.{Outcome, raised, returned, Outcome-cases}
use core_ai_protocol_suite.Router.{
  circuit_open_exc, call_provider, RoutingConfig, Router, Call, Ending, answered, stopped,
  unavailable, with_breaker, count_failover, attempts_for, goes_on, ending, route_from, route,
  is_single,
}
use core_ai_protocol_suite.Router.Balance.{call_balanced, counted_balanced}

abbrev pub name_of : String × ErrorKind → String
name_of f = f.0

abbrev pub FailsOver : String × ErrorKind → Type 0
FailsOver f = failover f.1 ≡ true

pub append_one :
    (fs : List (String × ErrorKind)) (f : String × ErrorKind)
    → All FailsOver fs
    → FailsOver f
    → All FailsOver (fs ++ (f ∷ []))
append_one [] f all one = (one, tt)
append_one (g ∷ fs) f all one = (all.0, append_one fs f all.1 one)

pub move_on :
    (fs : List (String × ErrorKind)) (n : String) (k : ErrorKind) (rest : List String)
    → map name_of (fs ++ ((n, k) ∷ [])) ++ rest ≡ map name_of fs ++ (n ∷ rest)
move_on [] n k rest = refl
move_on ((m, j) ∷ fs) n k rest = ap (λ (l : List String). m ∷ l) (move_on fs n k rest)

pub open_fails_over : failover circuit_open ≡ true
unfolding failover
open_fails_over = refl

pub goes_on-failover :
    (c : RoutingConfig) (e : Exc) → goes_on c e ≡ true → failover (classify e).kind ≡ true
unfolding goes_on
goes_on-failover c e h = ground arith

-- What a loop over candidates has gone through, where `call` makes the call of one of them.
module _ {A : Type 0} (call : String → ℕ → Call A → Router → Option (Router × Outcome A))
    (env : ℕ → Call A) (candidates : List String) (start : Router) where
  -- The breaker lets the call at place `i` through, and it leads to this state with this outcome.
  abbrev pub Called : ℕ → String → List String → Router → Router → Outcome A → Type 0
  Called i name rest r p o =
      ((allow (env i).asked (r.breakers name)).1 ≡ true)
      × (call name (attempts_for r.config rest) (env i)
            (with_breaker name (allow (env i).asked (r.breakers name)).0 r)
          ≡ some (p, o))

  -- The last exception, the failures so far, the place, the candidates left and the state: a
  -- candidate is passed over as `circuit_open` only where its breaker refuses the call, and with any
  -- other failure only after a call that raised an error of that kind which the configuration moves
  -- on from.
  pub data Tried : Option Exc → List (String × ErrorKind) → ℕ → List String → Router → Type 0 where
    begun : Tried none [] 0 candidates start
    skipped :
        {last : Option Exc} {fs : List (String × ErrorKind)} {i : ℕ} {name : String}
        {rest : List String} {r : Router}
        → Tried last fs i (name ∷ rest) r
        → (allow (env i).asked (r.breakers name)).1 ≡ false
        → Tried
            (some (
              circuit_open_exc
                (retry_after (env i).hint (allow (env i).asked (r.breakers name)).0)))
            (fs ++ ((name, circuit_open) ∷ []))
            (i + 1)
            rest
            (with_breaker name (allow (env i).asked (r.breakers name)).0 r)
    moved_on :
        {last : Option Exc} {fs : List (String × ErrorKind)} {i : ℕ} {name : String}
        {rest : List String} {r p : Router} {e : Exc}
        → Tried last fs i (name ∷ rest) r
        → Called i name rest r p (raised e)
        → goes_on r.config e ≡ true
        → Tried
            (some e)
            (fs ++ ((name, (classify e).kind) ∷ []))
            (i + 1)
            rest
            (count_failover rest p)

  -- The error of a call that the configuration does not move on from.
  abbrev pub Stops : RoutingConfig → Router → Exc → Type 0
  Stops c p e =
      (last : Option Exc) × (fs : List (String × ErrorKind)) × (i : ℕ) × (name : String)
      × (rest : List String) × (r : Router) × Tried last fs i (name ∷ rest) r
      × Called i name rest r p (raised e)
      × (goes_on c e ≡ false)

  -- Every candidate was passed over; the only one's failure is not summed up.
  abbrev pub Exhausts : Bool → Router → List (String × ErrorKind) → Type 0
  Exhausts single p fs =
      (last : Option Exc) × (i : ℕ) × Tried last fs i [] p
      × ((single ≡ false) ⊎ (last ≡ none))
      × (candidates ≡ map name_of fs)
      × All FailsOver fs

  -- The failure of the only candidate.
  abbrev pub Alone : Bool → Router → Exc → Type 0
  Alone single p e =
      (single ≡ true) × (fs : List (String × ErrorKind)) × (i : ℕ) × Tried (some e) fs i [] p

module _ {A : Type 0} (env : ℕ → Call A) (d : Deadline) (candidates : List String)
    (start : Router) where
  abbrev pub Through : Option Exc → List (String × ErrorKind) → ℕ → List String → Router → Type 0
  Through = Tried (λ name n c r. call_provider name d n c r) env candidates start

  abbrev pub Calls : ℕ → String → List String → Router → Router → Outcome A → Type 0
  Calls = Called (λ name n c r. call_provider name d n c r) env candidates start

  -- How a request ended, and in which state.
  abbrev pub IsExplained : Router × Ending A → Type 0
  IsExplained (p, answered name a failures) =
      (last : Option Exc) × (i : ℕ) × (rest : List String) × (r : Router) × Through last failures i
        (name ∷ rest) r
      × Calls i name rest r p (returned a)
      × (candidates ≡ map name_of failures ++ (name ∷ rest))
      × All FailsOver failures
  IsExplained (p, stopped e) =
      Stops (λ name n c r. call_provider name d n c r) env candidates start start.config p e
      ⊎ Alone (λ name n c r. call_provider name d n c r) env candidates start (is_single candidates)
          p e
  IsExplained (p, unavailable failures) =
      Exhausts (λ name n c r. call_provider name d n c r) env candidates start
        (is_single candidates) p failures

  ending-IsExplained :
      (single : Bool) (last : Option Exc) (failures : List (String × ErrorKind)) (i : ℕ)
      (r : Router)
      → single ≡ is_single candidates
      → Through last failures i [] r
      → candidates ≡ map name_of failures ++ []
      → All FailsOver failures
      → IsExplained (r, ending single last failures)
  unfolding ending
  ending-IsExplained true (some e) failures i r s t eq all = inr (sym s, failures, i, t)
  ending-IsExplained true none failures i r s t eq all =
      (none, i, t, inr refl, eq ∙ append-nil (map name_of failures), all)
  ending-IsExplained false last failures i r s t eq all =
      (last, i, t, inl (sym s), eq ∙ append-nil (map name_of failures), all)

  abbrev Explains : Option (Router × Ending A) → Type 0
  Explains o = (x : Router × Ending A) × (o ≡ some x) × IsExplained x

  route_from-IsExplained :
      (single : Bool) (names : List String) (i : ℕ) (last : Option Exc)
      (failures : List (String × ErrorKind)) (r : Router)
      → single ≡ is_single candidates
      → r.config ≡ start.config
      → Through last failures i names r
      → candidates ≡ map name_of failures ++ names
      → All FailsOver failures
      → Explains (route_from env d single i last failures names r)
  unfolding route_from with_breaker
  route_from-IsExplained single [] i last failures r o s t eq all =
      (_, refl, ending-IsExplained single last failures i r o t eq all)
  route_from-IsExplained single (name ∷ rest) i last failures r o s t eq all =
      let asked = allow (env i).asked (r.breakers name) in
      elim (Bool-cases asked.1) [
        | inr h ↦ subst Explains (sym (rw (h, route_from) refl)) (
            route_from-IsExplained single rest (i + 1) _ _ (with_breaker name asked.0 r) o s
              (skipped t h) (eq ∙ sym (move_on failures name circuit_open rest))
              (append_one failures (name, circuit_open) all open_fails_over))
        | inl h ↦
            let ((p, out), done, v) =
              call_balanced name d (attempts_for r.config rest) (env i) r h in
            elim (Outcome-cases out) [
              | inl (a, k) ↦ (
                (p, answered name a failures),
                rw (h, done, k, route_from) refl,
                (last, i, rest, r, t, (h, done ∙ ap (λ (z : Outcome A). some (p, z)) k), eq, all),
              )
              | inr (e, k) ↦
                  let c : Calls i name rest r p (raised e) =
                    (h, done ∙ ap (λ (z : Outcome A). some (p, z)) k) in
                  elim (Bool-cases (goes_on r.config e)) [
                    | inl g ↦ subst Explains (sym (rw (h, done, k, g, route_from) refl)) (
                        route_from-IsExplained single rest (i + 1) _ _ (count_failover rest p) o
                          ((counted_balanced rest r p v).settings ∙ s) (moved_on t c g)
                          (eq ∙ sym (move_on failures name (classify e).kind rest))
                          (append_one failures (name, (classify e).kind) all
                            (goes_on-failover r.config e g)))
                    | inr g ↦ (
                      (p, stopped e),
                      rw (h, done, k, g, route_from) refl,
                      inl (last, failures, i, name, rest, r, t, c, rw (sym s) g),
                    )
                  ]
            ]
      ]

-- A request that is not hedged always ends in one of three ways. An answer is what the call of the
-- named candidate returned, which its breaker let through; AllProvidersUnavailable lists every
-- candidate, in order; another exception is what the last call raised, where the configuration does
-- not move on from it, or the failure of the only candidate. Every candidate before the end was
-- passed over in order: as `circuit_open` where its breaker refused the call, and otherwise with the
-- kind of the error that its call raised and that the configuration moves on from.
pub route-IsExplained :
    {A : Type 0} (env : ℕ → Call A) (d : Deadline) (candidates : List String) (r : Router)
    → (x : Router × Ending A) × (route env d candidates r ≡ some x)
      × IsExplained env d candidates r x
unfolding route
route-IsExplained env d candidates r =
    route_from-IsExplained env d candidates r (is_single candidates) candidates 0 none [] r refl
      refl begun refl tt
