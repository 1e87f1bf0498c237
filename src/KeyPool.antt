-- ===== src/KeyPool.antt =====
-- src/providers/pool.py: several API keys behind one provider name.
--
-- A member is the number of its place. What a member does with the request, and the reading of the
-- clock if it is parked for it, are the environment. The reports (labels, totals, costs) and the
-- attributes delegated to the first member are left out.
mod Order
mod Failover
mod Streams
mod Tests
use core_ai_protocol_suite.Errors.{ErrorKind, rate_limit, auth, quota, Exc, ErrorInfo, classify}
use core_ai_protocol_suite.Retry.{Outcome, returned, raised}
use core_ai_protocol_suite.Prelude.{
  ℕ, zero, suc, ◌+◌, ◌%◌, Bool, true, false, Option, none, some, List, [], ◌∷◌, ◌++◌, map, leb, ltb,
  ◌==◌, if◌then◌else◌,
}

-- `_key_errors`
unfoldable pub is_key_error : ErrorKind → Bool
is_key_error auth = true
is_key_error quota = true
is_key_error rate_limit = true
is_key_error _ = false

-- `parked i` is `_parked.get(i, 0)`.
pub record KeyPool : Type 0 where
  pub size : ℕ
  pub cooldown : ℕ
  pub parked : ℕ → ℕ
  pub next : ℕ

-- The constructor: one label per member and at least one member; `none` is the ValueError.
unfoldable pub init : ℕ → ℕ → ℕ → Option KeyPool
init members labels cooldown =
    if members == 0
    then none
    else if members == labels
    then some (record { size = members; cooldown = cooldown; parked = λ _. 0; next = 0 })
    else none

-- `[(start + i) % n for i in range(k, k + m)]`
unfoldable pub rotation : ℕ → ℕ → ℕ → ℕ → List ℕ
rotation start n k zero = []
rotation start n k (suc m) = ((start + k) % n) ∷ rotation start n (k + 1) m

is_live : KeyPool → ℕ → ℕ → Bool
is_live p now i = leb (p.parked i) now

unfoldable pub keep : (ℕ → Bool) → List ℕ → List ℕ
keep test [] = []
keep test (i ∷ is) = let rest = keep test is in if test i then i ∷ rest else rest

-- `live or order`
or_all : List ℕ → List ℕ → List ℕ
or_all [] order = order
or_all (i ∷ is) order = i ∷ is

unfoldable pub full_order : KeyPool → List ℕ
full_order p = rotation (p.next % p.size) p.size 0 p.size

-- `_order`: the pool with its turn moved on, and the members to try.
unfoldable pub order : ℕ → KeyPool → KeyPool × List ℕ
unfolding full_order is_live or_all
order now p = (
  record p { next = (p.next + 1) % p.size },
  or_all (keep (is_live p now) (full_order p)) (full_order p),
)

-- `_park`, at its reading of the clock.
unfoldable pub park : ℕ → ℕ → KeyPool → KeyPool
park now i p = record p { parked = λ j. if j == i then now + p.cooldown else p.parked j }

pub record Reply (A : Type 0) : Type 0 where
  pub outcome : Outcome A
  pub now : ℕ

module _ {A : Type 0} (env : ℕ → Reply A) where
  -- The loop of `complete` over the members still to try; the last result is `none` where the
  -- assertion after the loop fails.
  unfoldable pub try_keys : List ℕ → Option Exc → KeyPool → KeyPool × Option (Outcome A)
  try_keys [] none p = (p, none)
  try_keys [] (some e) p = (p, some (raised e))
  try_keys (i ∷ is) last p = elim (env i).outcome [
    | returned a ↦ (p, some (returned a))
    | raised e ↦ elim (is_key_error (classify e).kind) [
      | true ↦ try_keys is (some e) (park (env i).now i p)
      | false ↦ (p, some (raised e))
    ]
  ]

  unfoldable pub complete : ℕ → KeyPool → KeyPool × Option (Outcome A)
  complete now p = try_keys (order now p).1 none (order now p).0

-- What one member's stream does: its chunks, and the exception that ends it, if one does.
pub record Flow (C : Type 0) : Type 0 where
  pub chunks : List C
  pub failure : Option Exc
  pub now : ℕ

started : {C : Type 0} → List C → Bool
started [] = false
started (c ∷ cs) = true

module _ {C : Type 0} (env : ℕ → Flow C) where
  -- The loop of `stream`: the pool, the chunks yielded, and the exception raised at the end.
  unfoldable pub stream_keys : List ℕ → Option Exc → KeyPool → KeyPool × List C × Option Exc
  unfolding started
  stream_keys [] last p = (p, [], last)
  stream_keys (i ∷ is) last p = elim (env i).failure [
    | none ↦ (p, (env i).chunks, none)
    | some e ↦ elim (started (env i).chunks) [
      | true ↦ (p, (env i).chunks, some e)
      | false ↦ elim (is_key_error (classify e).kind) [
        | true ↦ stream_keys is (some e) (park (env i).now i p)
        | false ↦ (p, [], some e)
      ]
    ]
  ]

  unfoldable pub stream : ℕ → KeyPool → KeyPool × List C × Option Exc
  stream now p = stream_keys (order now p).1 none (order now p).0
