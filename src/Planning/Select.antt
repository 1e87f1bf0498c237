-- ===== src/Planning/Select.antt =====
-- src/coreai/router.py: the choice of a provider, `_select_provider` and the strategies, and the
-- order of the others, `_failover_order`.
--
-- The balanced score is multiplied by the largest cost, the largest latency and a thousand, which
-- makes it a natural number and keeps its order; the rounding of floats is left out.
pub mod Least
pub mod Others
pub mod Rotation
use core_ai_protocol_suite.Prelude.{
  ℕ, zero, suc, ◌+◌, ◌-◌, ◌*◌, ◌/◌, ◌%◌, max, String, Bool, true, false, Option, none, some, List,
  [], ◌∷◌, map, ltb, length, get_elem?, keep, sort_by,
}
use core_ai_protocol_suite.Planning.{
  RoutingStrategy, cheapest, fastest, balanced, round_robin, fallback, CompletionRequest, Provider,
  Planner, get_provider, estimate_tokens, estimate_output_tokens,
}

self : ℕ → ℕ
self n = n

-- `sorted(history)[len(history) // 2]`
unfoldable pub middle : List ℕ → Option ℕ
unfolding self
middle history = get_elem? (sort_by self history) (length history / 2)

-- _p50_latency
unfoldable pub p50_latency : Planner → String → Option ℕ
p50_latency p n = middle (p.latency_history n)

-- `... or default`: 0 does not count.
unfoldable pub or_number : Option ℕ → ℕ → ℕ
or_number none default = default
or_number (some zero) default = default
or_number (some (suc n)) default = suc n

plain : Option ℕ → ℕ → ℕ
plain none default = default
plain (some n) default = n

-- The scan of `for name in available: if key(name) < best_key`, whose bound starts at infinity.
improves : ℕ → Option ℕ → Bool
improves k none = true
improves k (some bound) = ltb k bound

unfoldable pub scan : (String → ℕ) → String → Option ℕ → List String → String
unfolding improves
scan key best bound [] = best
scan key best bound (n ∷ ns) = elim (improves (key n) bound) [
  | true ↦ scan key n (some (key n)) ns
  | false ↦ scan key best bound ns
]

-- The provider's estimate_cost for the request.
cost_with : CompletionRequest → Option Provider → ℕ
cost_with r none = 0
cost_with r (some q) =
    let estimated = estimate_tokens r in
    q.estimate_cost estimated (estimate_output_tokens r.max_tokens estimated)
      (elim r.model [ none ↦ q.default_model | some m ↦ m ])

unfoldable pub cost : Planner → CompletionRequest → String → ℕ
unfolding cost_with
cost p r n = cost_with r (get_provider p n)

largest : List ℕ → ℕ
largest [] = 0
largest (n ∷ ns) = max n (largest ns)

-- `max(...) or 1.0`
scale : List ℕ → ℕ
unfolding largest
scale ns = or_number (some (largest ns)) 1

unfoldable pub latency : Planner → String → ℕ
unfolding plain
latency p n = plain (p50_latency p n) 500

-- _balanced_scores
unfoldable pub balanced_score : Planner → CompletionRequest → ℕ × ℕ → List String → String → ℕ
unfolding scale
balanced_score p r weights available n =
    let max_cost = scale (map (cost p r) available) in
    let max_latency = scale (map (latency p) available) in
    weights.0 * cost p r n * max_latency * 1000
    + weights.1 * latency p n * max_cost * 1000
    + p.health_weight * (1000 - p.health n) * (max_cost * max_latency)

unfoldable pub own_weights : Planner → ℕ × ℕ
own_weights p = (p.cost_weight, p.latency_weight)

-- `available[self._rr_index % len(available)]`, where `size` is the length, and is not 0.
turn : ℕ → List String → Option String
turn i [] = none
turn i (n ∷ ns) = get_elem? (n ∷ ns) (i % length (n ∷ ns))

bump : Planner → Planner
bump p = record p { rr_index = suc p.rr_index }

unfoldable pub under_sampled : Planner → List String → List String
under_sampled p = keep (λ n. ltb (length (p.latency_history n)) 3)

select_fastest : Planner → List String → String → List String → Planner × Option String
unfolding turn bump
select_fastest p [] first available = (p, some (scan (latency p) first none available))
select_fastest p (u ∷ us) first available = (bump p, turn p.rr_index (u ∷ us))

select_by :
    RoutingStrategy → Planner → CompletionRequest → String → List String → Planner × Option String
unfolding select_fastest under_sampled turn bump
select_by cheapest p r first available = (p, some (scan (cost p r) first none available))
select_by fastest p r first available = select_fastest p (under_sampled p available) first available
select_by balanced p r first available =
    (p, some (scan (balanced_score p r (own_weights p) available) first none available))
select_by round_robin p r first available = (bump p, turn p.rr_index available)
select_by fallback p r first available = (p, some first)

-- _select_provider; `none` is the ValueError.
unfoldable pub select_provider : Planner → CompletionRequest → List String → Planner × Option String
unfolding select_by
select_provider p r [] = (p, none)
select_provider p r (first ∷ rest) = select_by p.strategy p r first (first ∷ rest)

in_order : RoutingStrategy → Bool
in_order fallback = true
in_order cheapest = false
in_order fastest = false
in_order balanced = false
in_order round_robin = false

-- _failover_order
unfoldable pub failover_order : Planner → CompletionRequest → List String → List String
unfolding in_order
failover_order p r [] = []
failover_order p r (n ∷ []) = n ∷ []
failover_order p r (n ∷ m ∷ ns) = elim (in_order p.strategy) [
  | true ↦ n ∷ m ∷ ns
  | false ↦ sort_by (balanced_score p r (own_weights p) (n ∷ m ∷ ns)) (n ∷ m ∷ ns)
]
