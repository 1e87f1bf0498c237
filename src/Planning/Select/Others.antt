-- ===== src/Planning/Select/Others.antt =====
-- The providers behind the one that is selected (coreai/router.py, `_failover_order`).
use mathlib.Core.List.{Perm}
use mathlib.Core.List.Perm
use core_ai_protocol_suite.Prelude.{
  String, false, ◌≡◌, List, [], ◌∷◌, Bool-cases, inl, inr, sort_by-perm, sort_by-IsSorted, IsSorted,
}
use core_ai_protocol_suite.Planning.{CompletionRequest, Planner}
use core_ai_protocol_suite.Planning.Select.{balanced_score, own_weights, in_order, failover_order}

pub failover_order-perm :
    (p : Planner) (r : CompletionRequest) (ns : List String) → Perm (failover_order p r ns) ns
unfolding failover_order
failover_order-perm p r [] = Perm.refl []
failover_order-perm p r (n ∷ []) = Perm.refl (n ∷ [])
failover_order-perm p r (n ∷ m ∷ ns) = elim (Bool-cases (in_order p.strategy)) [
  | inl h ↦ rw (h, failover_order) (Perm.refl (n ∷ m ∷ ns))
  | inr h ↦ rw (h, failover_order) (sort_by-perm _ (n ∷ m ∷ ns))
]

-- Unless the strategy is `fallback`, the others are in the order of their balanced scores.
failover_order-IsSorted :
    (p : Planner) (r : CompletionRequest) (ns : List String)
    → in_order p.strategy ≡ false
    → IsSorted (balanced_score p r (own_weights p) ns) (failover_order p r ns)
unfolding failover_order
failover_order-IsSorted p r [] h = tt
failover_order-IsSorted p r (n ∷ []) h = (tt, tt)
failover_order-IsSorted p r (n ∷ m ∷ ns) h =
    rw (h, failover_order) (sort_by-IsSorted _ (n ∷ m ∷ ns))
