-- ===== src/MemoryCache.antt =====
-- src/coreai/cache.py, MemoryCache: the in-memory LRU cache with expiry.
--
-- The keys are texts in the source; here they are any type with a decidable equality. A value is
-- copied on its way in and out (`deepcopy`), so it is a plain value here. `ttl_seconds` is a
-- natural number, which is what `_validate_ttl` lets through. Times are natural numbers; a method
-- that reads the clock twice takes both readings.
pub mod Bounds
pub mod Reads
mod Eviction
mod Tests
use mathlib.Core.Logic.{ite}
use core_ai_protocol_suite.Dict
use core_ai_protocol_suite.Dict.{Dict}
use core_ai_protocol_suite.Prelude.{
  ℕ, zero, suc, ◌+◌, ◌-◌, Bool, true, false, Option, none, some, List, [], ◌∷◌, ltb, leb, length,
  if◌then◌else◌,
}

pub record MemoryCache (K V : Type 0) : Type 0 where
  pub max_entries : ℕ
  pub store : Dict K (V × ℕ)
  pub evictions : ℕ

-- The constructor; `none` is the ValueError.
unfoldable pub init : {K V : Type 0} → ℕ → Option (MemoryCache K V)
init max_entries =
    if ltb max_entries 1
    then none
    else some (record { max_entries = max_entries; store = []; evictions = 0 })

module _ {K V : Type 0} where
  -- What is left when every entry that has expired by `now` is deleted.
  unfoldable pub live : ℕ → Dict K (V × ℕ) → Dict K (V × ℕ)
  live now [] = []
  live now ((k, e) ∷ d) = let rest = live now d in if leb e.1 now then rest else (k, e) ∷ rest

  -- The cache after `purge_expired`, and the number of entries removed.
  unfoldable pub purge_expired : ℕ → MemoryCache K V → MemoryCache K V × ℕ
  purge_expired now c =
      (record c { store = live now c.store }, length c.store - length (live now c.store))

  -- The `while` loop of `set`: what is left of the store, and the entries popped from its front.
  unfoldable pub evict : ℕ → Dict K (V × ℕ) → Dict K (V × ℕ) × ℕ
  evict limit [] = ([], 0)
  evict limit (e ∷ d) =
      let rest = evict limit d in
      if ltb limit (length (e ∷ d)) then (rest.0, rest.1 + 1) else (e ∷ d, 0)

  pub shrink : MemoryCache K V → MemoryCache K V
  unfolding evict
  shrink c =
      let (kept, dropped) = evict c.max_entries c.store in
      record c { store = kept; evictions = c.evictions + dropped }

  pub purge_if_over : ℕ → MemoryCache K V → MemoryCache K V
  unfolding purge_expired
  purge_if_over now c = if ltb c.max_entries (length c.store) then (purge_expired now c).0 else c

module _ {K V : Type 0} (dec : Discrete K) where
  read : Option (V × ℕ) → ℕ → K → MemoryCache K V → MemoryCache K V × Option V
  read none now key c = (c, none)
  read (some (value, expiry)) now key c =
      if leb expiry now
      then (record c { store = Dict.remove dec key c.store }, none)
      else (record c { store = Dict.move_to_end dec key c.store }, some value)

  unfoldable pub get : ℕ → K → MemoryCache K V → MemoryCache K V × Option V
  unfolding read
  get now key c = read (Dict.get dec key c.store) now key c

  unfoldable pub delete : K → MemoryCache K V → MemoryCache K V
  delete key c = record c { store = Dict.remove dec key c.store }

  -- The first two statements of `set` for a positive ttl: write, and move to the end.
  unfoldable pub place : K → V → ℕ → MemoryCache K V → MemoryCache K V
  place key value expiry c = record c {
    store = Dict.move_to_end dec key (Dict.put dec key (value, expiry) c.store);
  }

  -- `set` at the readings `now` (for the expiry) and `later` (for the purge).
  unfoldable pub set : ℕ → ℕ → K → V → ℕ → MemoryCache K V → MemoryCache K V
  unfolding delete place purge_if_over shrink
  set now later key value zero c = delete key c
  set now later key value (suc ttl) c =
      shrink (purge_if_over later (place key value (now + suc ttl) c))

unfoldable pub clear : {K V : Type 0} → MemoryCache K V → MemoryCache K V
clear c = record c { store = [] }
