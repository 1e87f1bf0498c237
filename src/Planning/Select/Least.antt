-- ===== src/Planning/Select/Least.antt =====
-- Which provider the router selects (coreai/router.py, `_select_provider`).
use native.Mathlib.Nat.{mod-lt}
use mathlib.Core.Path.{subst}
use native.Mathlib.Omega.{arith}
use core_ai_protocol_suite.Prelude.{
  sym, ltb→lt, same, All-map, ℕ, ◌%◌, ◌≤◌, String, true, ◌≡◌, refl, Option, none, some, List, [],
  ◌∷◌, length, ltb, All, All-keep, All-contains, Bool-cases, inl, inr, contains, same_self,
  get_elem?-contains, get_elem?-some,
}
use core_ai_protocol_suite.Planning.{
  RoutingStrategy, cheapest, fastest, balanced, round_robin, fallback, CompletionRequest, Planner,
}
use core_ai_protocol_suite.Planning.Select.{
  improves, scan, cost, latency, balanced_score, own_weights, turn, under_sampled, select_fastest,
  select_by, select_provider,
}

contains_later :
    (x y : String) (ys : List String) → contains x ys ≡ true → contains x (y ∷ ys) ≡ true
contains_later x y ys h = elim (Bool-cases (same y x)) [
  | inl k ↦ rw (k, contains) refl
  | inr k ↦ rw (k, contains) h
]

pub All-contained : (xs : List String) → All (λ x. contains x xs ≡ true) xs
All-contained [] = tt
All-contained (x ∷ xs) = (
  rw (same_self x, contains) refl,
  All-map (λ y. contains y xs ≡ true) (λ y. contains y (x ∷ xs) ≡ true)
      (λ y h. contains_later y x xs h) xs (All-contained xs),
)

module _ (key : String → ℕ) where
  scan-holds :
      (P : String → Type 0) (best : String) (bound : Option ℕ) (xs : List String)
      → P best
      → All P xs
      → P (scan key best bound xs)
  unfolding scan
  scan-holds P best bound [] u v = u
  scan-holds P best bound (x ∷ xs) u v = elim (Bool-cases (improves (key x) bound)) [
    | inl h ↦ rw (h, scan) (scan-holds P x (some (key x)) xs v.0 v.1)
    | inr h ↦ rw (h, scan) (scan-holds P best bound xs u v.1)
  ]

  -- The bound is the key of the best.
  scan-least :
      (best : String) (xs : List String)
      → (key (scan key best (some (key best)) xs) ≤ key best)
        × All (λ x. key (scan key best (some (key best)) xs) ≤ key x) xs
  unfolding scan
  scan-least best [] = (omega arith, tt)
  scan-least best (x ∷ xs) = elim (Bool-cases (ltb (key x) (key best))) [
    | inl h ↦
        let l = ltb→lt (key x) (key best) h in
        let rest = scan-least x xs in
        subst (λ (z : String). (key z ≤ key best) × All (λ w. key z ≤ key w) (x ∷ xs))
          (sym (rw (h, scan) refl)) (omega (arith, l, rest.0), rest)
    | inr h ↦
        let l : key best ≤ key x = ground arith in
        let rest = scan-least best xs in
        subst (λ (z : String). (key z ≤ key best) × All (λ w. key z ≤ key w) (x ∷ xs))
          (sym (rw (h, scan) refl)) (rest.0, (omega (arith, l, rest.0), rest.1))
  ]

  -- A scan from infinity ends at a least key.
  scan-least_all :
      (x : String) (xs : List String) → All (λ y. key (scan key x none (x ∷ xs)) ≤ key y) (x ∷ xs)
  unfolding scan
  scan-least_all x xs = scan-least x xs

-- The turn of a rotation is one of the list.
turn-contains :
    (i : ℕ) (x : String) (xs : List String)
    → (y : String) × (turn i (x ∷ xs) ≡ some y) × (contains y (x ∷ xs) ≡ true)
unfolding turn
turn-contains i x xs =
    let (y, e) =
      get_elem?-some (i % length (x ∷ xs)) (x ∷ xs)
        (mod-lt i {m = length (x ∷ xs)} (omega arith)) in
    (y, e, get_elem?-contains (i % length (x ∷ xs)) (x ∷ xs) y e)

scanned :
    (key : String → ℕ) (x : String) (xs : List String)
    → contains (scan key x none (x ∷ xs)) (x ∷ xs) ≡ true
scanned key x xs =
    scan-holds key (λ y. contains y (x ∷ xs) ≡ true) x none (x ∷ xs) (All-contained (x ∷ xs)).0
      (All-contained (x ∷ xs))

-- One of the list is selected.
abbrev pub IsSelected : List String → Option String → Type 0
IsSelected ns o = (y : String) × (o ≡ some y) × (contains y ns ≡ true)

select_fastest-IsSelected :
    (p : Planner) (us : List String) (x : String) (xs : List String)
    → All (λ y. contains y (x ∷ xs) ≡ true) us
    → IsSelected (x ∷ xs) (select_fastest p us x (x ∷ xs)).1
unfolding select_fastest
select_fastest-IsSelected p [] x xs u =
    (scan (latency p) x none (x ∷ xs), refl, scanned (latency p) x xs)
select_fastest-IsSelected p (u ∷ us) x xs all =
    let (y, e, c) = turn-contains p.rr_index u us in
    (y, e, All-contains (λ z. contains z (x ∷ xs) ≡ true) y (u ∷ us) all c)

select_by-IsSelected :
    (s : RoutingStrategy) (p : Planner) (r : CompletionRequest) (x : String) (xs : List String)
    → IsSelected (x ∷ xs) (select_by s p r x (x ∷ xs)).1
unfolding select_by under_sampled
select_by-IsSelected cheapest p r x xs = (_, refl, scanned (cost p r) x xs)
select_by-IsSelected fastest p r x xs =
    select_fastest-IsSelected p (under_sampled p (x ∷ xs)) x xs (
      All-keep (λ y. contains y (x ∷ xs) ≡ true) (λ y. ltb (length (p.latency_history y)) 3)
        (x ∷ xs) (All-contained (x ∷ xs)))
select_by-IsSelected balanced p r x xs =
    (_, refl, scanned (balanced_score p r (own_weights p) (x ∷ xs)) x xs)
select_by-IsSelected round_robin p r x xs = turn-contains p.rr_index x xs
select_by-IsSelected fallback p r x xs = (x, refl, (All-contained (x ∷ xs)).0)

pub select_provider-IsSelected :
    (p : Planner) (r : CompletionRequest) (x : String) (xs : List String)
    → IsSelected (x ∷ xs) (select_provider p r (x ∷ xs)).1
unfolding select_provider
select_provider-IsSelected p r x xs = select_by-IsSelected p.strategy p r x xs

-- The key that a strategy makes least: the estimated cost, or the balanced score.
abbrev pub key_of : RoutingStrategy → Planner → CompletionRequest → List String → String → ℕ
key_of cheapest p r ns = cost p r
key_of fastest p r ns = latency p
key_of balanced p r ns = balanced_score p r (own_weights p) ns
key_of round_robin p r ns = λ n. 0
key_of fallback p r ns = λ n. 0

least_anyway : (k : ℕ) (xs : List String) → All (λ n. k ≤ k) xs
least_anyway k [] = tt
least_anyway k (x ∷ xs) = (omega arith, least_anyway k xs)

-- The fastest strategy has three samples of every provider.
abbrev pub Explored : RoutingStrategy → Planner → List String → Type 0
Explored fastest p ns = under_sampled p ns ≡ []
Explored cheapest p ns = Unit
Explored balanced p ns = Unit
Explored round_robin p ns = Unit
Explored fallback p ns = Unit

-- One of the list is selected, with a key that is the least of the list.
abbrev pub IsLeast : (String → ℕ) → List String → Option String → Type 0
IsLeast key ns o =
    (y : String) × (o ≡ some y) × (contains y ns ≡ true) × All (λ n. key y ≤ key n) ns

select_by-IsLeast :
    (s : RoutingStrategy) (p : Planner) (r : CompletionRequest) (x : String) (xs : List String)
    → Explored s p (x ∷ xs)
    → IsLeast (key_of s p r (x ∷ xs)) (x ∷ xs) (select_by s p r x (x ∷ xs)).1
unfolding select_by select_fastest
select_by-IsLeast cheapest p r x xs u =
    (_, refl, scanned (cost p r) x xs, scan-least_all (cost p r) x xs)
select_by-IsLeast fastest p r x xs u =
    rw (u, select_by) (_, refl, scanned (latency p) x xs, scan-least_all (latency p) x xs)
select_by-IsLeast balanced p r x xs u = (
  _,
  refl,
  scanned (balanced_score p r (own_weights p) (x ∷ xs)) x xs,
  scan-least_all (balanced_score p r (own_weights p) (x ∷ xs)) x xs,
)
select_by-IsLeast round_robin p r x xs u =
    let (y, e, c) = turn-contains p.rr_index x xs in (y, e, c, least_anyway 0 (x ∷ xs))
select_by-IsLeast fallback p r x xs u =
    (x, refl, (All-contained (x ∷ xs)).0, least_anyway 0 (x ∷ xs))

-- The router selects one of the providers that are up, and under `cheapest` one of these of the least
-- estimated cost, under `balanced` one of the least balanced score, and under `fastest` one of the
-- least median latency; under `fastest` this is said where every one of them has three samples.
pub select_provider-IsLeast :
    (p : Planner) (r : CompletionRequest) (x : String) (xs : List String)
    → Explored p.strategy p (x ∷ xs)
    → IsLeast (key_of p.strategy p r (x ∷ xs)) (x ∷ xs) (select_provider p r (x ∷ xs)).1
unfolding select_provider
select_provider-IsLeast p r x xs u = select_by-IsLeast p.strategy p r x xs u
