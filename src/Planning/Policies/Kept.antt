-- ===== src/Planning/Policies/Kept.antt =====
-- From the eligible providers to the order of a policy (coreai/router.py, `_plan_with_policy`).
use core_ai_protocol_suite.Prelude.{
  ℕ, zero, suc, ◌%◌, String, Bool, true, false, not, ◌&&◌, ◌||◌, Option, none, some, is_some, List,
  [], ◌∷◌, length, take, drop, keep, All, All-append, All-keep, All-sort_by, All-contains, same,
  contains, Bool-cases, inl, inr,
}
use core_ai_protocol_suite.Policy.{Strategy, Policy, given}
use core_ai_protocol_suite.Policy
use core_ai_protocol_suite.Planning.{CompletionRequest, Planner}
use core_ai_protocol_suite.Planning.Policies.{
  if_eligible, free, model_first, fallback_second, pin_first, pin_by, pin, along, follow_by, follow,
  eligible_owner, owner_first, owner_second, apply_policy_models, cut, with_models,
  order_with_policy,
}
use core_ai_protocol_suite.Planning.Ranking.{
  under_ceiling, rotation, rotate_by, by_score, rank_by, rank_for_policy,
}
use core_ai_protocol_suite.Planning.Owners.{owner_of}

module _ (P : String → Type 0) where
  All-take : (n : ℕ) (xs : List String) → All P xs → All P (take n xs)
  All-take zero xs u = tt
  All-take (suc n) [] u = tt
  All-take (suc n) (x ∷ xs) u = (u.0, All-take n xs u.1)

  All-drop : (n : ℕ) (xs : List String) → All P xs → All P (drop n xs)
  All-drop zero xs u = u
  All-drop (suc n) [] u = tt
  All-drop (suc n) (x ∷ xs) u = All-drop n xs u.1

  -- Names kept because another list holds them.
  All-chosen :
      (q : String → Bool) (ns chain : List String)
      → All P ns
      → All P (keep (λ n. contains n ns && q n) chain)
  All-chosen q ns [] u = tt
  All-chosen q ns (c ∷ chain) u = elim (Bool-cases (contains c ns)) [
    | inl h ↦ elim (Bool-cases (q c)) [
      | inl k ↦ rw (h, k, keep, All) (All-contains P c ns u h, All-chosen q ns chain u)
      | inr k ↦ rw (h, k, keep, All) (All-chosen q ns chain u)
    ]
    | inr h ↦ rw (h, keep, All) (All-chosen q ns chain u)
  ]

  All-members : (ns chain : List String) → All P ns → All P (keep (λ n. contains n ns) chain)
  All-members ns [] u = tt
  All-members ns (c ∷ chain) u = elim (Bool-cases (contains c ns)) [
    | inl h ↦ rw (h, keep, All) (All-contains P c ns u h, All-members ns chain u)
    | inr h ↦ rw (h, keep, All) (All-members ns chain u)
  ]

  under_ceiling-All :
      (p : Planner) (ceiling : Option ℕ) (ns : List String)
      → All P ns
      → All P (under_ceiling p ceiling ns)
  unfolding under_ceiling
  under_ceiling-All p none ns u = u
  under_ceiling-All p (some c) ns u = All-append P _ _ (All-keep P _ ns u) (All-keep P _ ns u)

  rotation-All : (k : ℕ) (ns : List String) → All P ns → All P (rotation k ns)
  unfolding rotation rotate_by
  rotation-All k [] u = tt
  rotation-All k (n ∷ ns) u =
      All-append P _ _ (All-drop (k % length (n ∷ ns)) (n ∷ ns) u)
        (All-take (k % length (n ∷ ns)) (n ∷ ns) u)

  by_score-All :
      (p : Planner) (r : CompletionRequest) (policy : Policy) (ns : List String)
      → All P ns
      → All P (by_score p r policy ns)
  unfolding by_score
  by_score-All p r policy ns u =
      under_ceiling-All p policy.latency_ceiling_ms _ (All-sort_by _ P ns u)

  rank_by-All :
      (s : Strategy) (p : Planner) (r : CompletionRequest) (policy : Policy) (ns : List String)
      → All P ns
      → All P (rank_by s p r policy ns)
  unfolding rank_by
  rank_by-All Policy.fallback p r policy ns u = All-members ns policy.fallback_chain u
  rank_by-All Policy.round_robin p r policy ns u = rotation-All _ ns u
  rank_by-All Policy.fastest p r policy ns u =
      under_ceiling-All p policy.latency_ceiling_ms _ (All-sort_by _ P ns u)
  rank_by-All Policy.balanced p r policy ns u = by_score-All p r policy ns u
  rank_by-All Policy.cheapest p r policy ns u = by_score-All p r policy ns u
  rank_by-All Policy.explicit p r policy ns u = by_score-All p r policy ns u

  pin_first-All :
      (pinned : Option String) (ns ranked : List String)
      → All P ns
      → All P ranked
      → All P (pin_first pinned ns ranked)
  unfolding pin_first
  pin_first-All none ns ranked u v = v
  pin_first-All (some o) ns ranked u v = elim (Bool-cases (contains o ns)) [
    | inl h ↦ rw (h, pin_first, All) (All-contains P o ns u h, All-keep P _ ranked v)
    | inr h ↦ rw (h, pin_first) v
  ]

  pin_by-All :
      (s : Strategy) (pinned : Option String) (ns ranked : List String)
      → All P ns
      → All P ranked
      → All P (pin_by s pinned ns ranked)
  unfolding pin_by
  pin_by-All Policy.explicit pinned ns ranked u v = pin_first-All pinned ns ranked u v
  pin_by-All Policy.fallback pinned ns ranked u v = v
  pin_by-All Policy.round_robin pinned ns ranked u v = v
  pin_by-All Policy.fastest pinned ns ranked u v = v
  pin_by-All Policy.balanced pinned ns ranked u v = v
  pin_by-All Policy.cheapest pinned ns ranked u v = v

  along-All :
      (chain ns ranked : List String) → All P ns → All P ranked → All P (along chain ns ranked)
  unfolding along
  along-All [] ns ranked u v = v
  along-All (c ∷ chain) ns ranked u v =
      All-append P _ _ (All-take 1 ranked v)
        (All-chosen (λ x. not (contains x (take 1 ranked))) ns (c ∷ chain) u)

  follow_by-All :
      (s : Strategy) (chain ns ranked : List String)
      → All P ns
      → All P ranked
      → All P (follow_by s chain ns ranked)
  unfolding follow_by
  follow_by-All Policy.fallback chain ns ranked u v = v
  follow_by-All Policy.explicit chain ns ranked u v = along-All chain ns ranked u v
  follow_by-All Policy.round_robin chain ns ranked u v = along-All chain ns ranked u v
  follow_by-All Policy.fastest chain ns ranked u v = along-All chain ns ranked u v
  follow_by-All Policy.balanced chain ns ranked u v = along-All chain ns ranked u v
  follow_by-All Policy.cheapest chain ns ranked u v = along-All chain ns ranked u v

  -- A name, if there is one, for which `P` holds.
  abbrev If : Option String → Type 0
  If none = Unit
  If (some o) = P o

  if_eligible-If : (o : Option String) (ns : List String) → All P ns → If (if_eligible o ns)
  unfolding if_eligible
  if_eligible-If none ns u = tt
  if_eligible-If (some o) ns u = elim (Bool-cases (contains o ns)) [
    | inl h ↦ rw (h, if_eligible, If) (All-contains P o ns u h)
    | inr h ↦ rw (h, if_eligible, If) tt
  ]

  eligible_owner-If :
      (p : Planner) (model : Option String) (ns : List String)
      → All P ns
      → If (eligible_owner p model ns)
  unfolding eligible_owner
  eligible_owner-If p model ns u = if_eligible-If (owner_of p model) ns u

  owner_first-All :
      (o : Option String) (order : List String) → If o → All P order → All P (owner_first o order)
  unfolding owner_first
  owner_first-All none order u v = v
  owner_first-All (some o) order u v = (u, All-keep P _ order v)

  owner_second-All :
      (f : Bool) (o : Option String) (order : List String)
      → If o
      → All P order
      → All P (owner_second f o order)
  unfolding owner_second
  owner_second-All f o [] u v = tt
  owner_second-All f none (n ∷ ns) u v = v
  owner_second-All f (some o) (n ∷ ns) u v = elim (Bool-cases (same o n || f)) [
    | inl h ↦ rw (h, owner_second, All) (v.0, (u, All-keep P _ ns v.1))
    | inr h ↦ rw (h, owner_second) v
  ]

  model_first-All :
      (b : Bool) (o : Option String) (order : List String)
      → If o
      → All P order
      → All P (model_first b o order)
  unfolding model_first
  model_first-All true o order u v = owner_first-All o order u v
  model_first-All false o order u v = v

  fallback_second-All :
      (b f : Bool) (o : Option String) (order : List String)
      → If o
      → All P order
      → All P (fallback_second b f o order)
  unfolding fallback_second
  fallback_second-All true f o order u v = owner_second-All f o order u v
  fallback_second-All false f o order u v = v

  apply_policy_models-All :
      (p : Planner) (policy : Policy) (order ns : List String)
      → All P ns
      → All P order
      → All P (apply_policy_models p policy order ns)
  unfolding apply_policy_models
  apply_policy_models-All p policy order ns u v =
      fallback_second-All (is_some (given policy.fallback_model) && p.enable_failover) (free policy)
        (eligible_owner p policy.fallback_model ns)
        (model_first (free policy && is_some (given policy.model))
          (eligible_owner p policy.model ns) order)
        (eligible_owner-If p policy.fallback_model ns u)
        (model_first-All (free policy && is_some (given policy.model))
          (eligible_owner p policy.model ns) order (eligible_owner-If p policy.model ns u) v)

  cut-All :
      (p : Planner) (model : Option String) (order : List String)
      → All P order
      → All P (cut p model order)
  unfolding cut
  cut-All p model order u = elim (Bool-cases (is_some model || not p.enable_failover)) [
    | inl h ↦ rw (h, cut) (All-take 1 order u)
    | inr h ↦ rw (h, cut) u
  ]

  with_models-All :
      (p : Planner) (policy : Policy) (model : Option String) (order ns : List String)
      → All P ns
      → All P order
      → All P (with_models p policy model order ns)
  unfolding with_models
  with_models-All p policy none order ns u v = apply_policy_models-All p policy order ns u v
  with_models-All p policy (some _) order ns u v = v

  pub order_with_policy-All :
      (p : Planner) (r : CompletionRequest) (policy : Policy) (ns : List String)
      → All P ns
      → All P (order_with_policy p r policy ns)
  unfolding order_with_policy rank_for_policy pin follow
  order_with_policy-All p r policy ns u = cut-All p r.model _ (
      with_models-All p policy r.model _ ns u (
        follow_by-All policy.strategy policy.fallback_chain ns _ u (
          pin_by-All policy.strategy policy.provider ns _ u
            (rank_by-All policy.strategy p r policy ns u))))
