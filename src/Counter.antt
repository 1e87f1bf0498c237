-- ===== src/Counter.antt =====
-- `collections.Counter` as the repository uses it: counts by key, a missing key counting 0. The
-- code that keeps such counters is in the modules that use this one.
use mathlib.Core.Logic.{ite}
use core_ai_protocol_suite.Prelude.{ℕ, ◌+◌, ◌≡◌, List, [], ◌∷◌, arith}

abbrev pub Counter : Type 0 → Type 0
Counter K = List (K × ℕ)

module _ {K : Type 0} where
  -- The sum of all counts.
  unfoldable pub total : Counter K → ℕ
  total [] = 0
  total ((k, n) ∷ m) = n + total m

module _ {K : Type 0} (dec : Discrete K) where
  unfoldable pub bump : K → Counter K → Counter K
  bump k [] = (k, 1) ∷ []
  bump k ((j, n) ∷ m) = ite (dec j k) ((j, n + 1) ∷ m) ((j, n) ∷ bump k m)

  unfoldable pub count : K → Counter K → ℕ
  count k [] = 0
  count k ((j, n) ∷ m) = ite (dec j k) n (count k m)

  pub total-bump : (k : K) (m : Counter K) → total (bump k m) ≡ total m + 1
  unfolding total bump
  total-bump k [] = omega arith
  total-bump k ((j, n) ∷ m) = ground (arith, total-bump k m)

  pub count-bump :
      (k q : K) (m : Counter K) → count q (bump k m) ≡ ite (dec k q) (count q m + 1) (count q m)
  unfolding count bump
  count-bump k q [] = ground arith
  count-bump k q ((j, n) ∷ m) = ground (arith, count-bump k q m)
