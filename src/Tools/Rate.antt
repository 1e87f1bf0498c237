-- ===== src/Tools/Rate.antt =====
-- The rate limit of tools against an exact log of their calls (tools/registry.py, _check_rate).
use core_ai_protocol_suite.Prelude.{
  ℕ, ◌+◌, ◌≤◌, ◌<◌, ◌≡◌, refl, true, List, [], ◌∷◌, ◌++◌, length, leb, if◌then◌else◌, arith,
}
use core_ai_protocol_suite.Tools.{minute, prune, stale}

-- How many of the logged calls lie within the minute before `now`.
unfoldable pub recent : ℕ → List ℕ → ℕ
recent now [] = 0
recent now (t ∷ ts) = let rest = recent now ts in if leb (t + minute) now then rest else rest + 1

-- The times rise, from `low` on and up to `high`.
abbrev pub Rises : ℕ → List ℕ → ℕ → Type 0
Rises low [] high = low ≤ high
Rises low (t ∷ ts) high = (low ≤ t) × Rises t ts high

pub Rises-weaken :
    (low low' : ℕ) (ts : List ℕ) (high high' : ℕ)
    → low' ≤ low
    → high ≤ high'
    → Rises low ts high
    → Rises low' ts high'
Rises-weaken low low' [] high high' a b r = omega arith
Rises-weaken low low' (t ∷ ts) high high' a b r =
    (omega (arith, r.0), Rises-weaken t t ts high high' (omega arith) b r.1)

pub Rises-append :
    (low : ℕ) (ts : List ℕ) (high now : ℕ)
    → high ≤ now
    → Rises low ts high
    → Rises low (ts ++ (now ∷ [])) now
Rises-append low [] high now le r = (omega (arith, r), omega arith)
Rises-append low (t ∷ ts) high now le r = (r.0, Rises-append t ts high now le r.1)

pub recent-append :
    (now t : ℕ) (ts : List ℕ) → recent now (ts ++ (t ∷ [])) ≡ recent now ts + recent now (t ∷ [])
unfolding recent
recent-append now t [] = omega arith
recent-append now t (s ∷ ts) = ground (arith, recent-append now t ts)

-- Of rising times that start within the minute all are recent.
all_recent :
    (now low : ℕ) (ts : List ℕ) (high : ℕ)
    → now < low + minute
    → Rises low ts high
    → recent now ts ≡ length ts
unfolding recent
all_recent now low [] high lt r = omega arith
all_recent now low (t ∷ ts) high lt r =
    ground (arith, all_recent now t ts high (omega (arith, r.0)) r.1)

pub length-prune :
    (now low : ℕ) (ts : List ℕ) (high : ℕ)
    → Rises low ts high
    → length (prune now ts) ≡ recent now ts
unfolding prune recent
length-prune now low [] high r = refl
length-prune now low (t ∷ ts) high r =
    ground (arith, length-prune now t ts high r.1, all_recent now t ts high)

-- What `prune` drops is not recent, then or later.
pub recent-prune :
    (now later : ℕ) (ts : List ℕ) → now ≤ later → recent later (prune now ts) ≡ recent later ts
unfolding prune recent
recent-prune now later [] le = refl
recent-prune now later (t ∷ ts) le = ground (arith, recent-prune now later ts le)

pub Rises-prune :
    (now low : ℕ) (ts : List ℕ) (high : ℕ) → Rises low ts high → Rises low (prune now ts) high
unfolding prune
Rises-prune now low [] high r = r
Rises-prune now low (t ∷ ts) high r =
    ground (arith, Rises-weaken t low (prune now ts) high high, Rises-prune now t ts high r.1)

-- A window whose last call is not recent has none that is, then or later.
pub stale-recent :
    (now later low : ℕ) (ts : List ℕ) (high : ℕ)
    → Rises low ts high
    → stale now ts ≡ true
    → now ≤ later
    → recent later ts ≡ 0
unfolding stale recent
stale-recent now later low [] high r s le = refl
stale-recent now later low (t ∷ []) high r s le = ground arith
stale-recent now later low (t ∷ u ∷ ts) high r s le =
    ground (arith, stale-recent now later t (u ∷ ts) high r.1 s le, r.1.0)
