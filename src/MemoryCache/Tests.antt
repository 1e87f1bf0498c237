-- ===== src/MemoryCache/Tests.antt =====
-- A small cache at work (coreai/cache.py), and instances of the theorems.
use native.Mathlib.Decide.{ℕ_discrete}
use core_ai_protocol_suite.Dict
use core_ai_protocol_suite.Prelude.{
  ℕ, ◌≡◌, refl, none, some, [], ◌∷◌, ◌++◌, String, String-discrete, arith,
}
use core_ai_protocol_suite.MemoryCache.{MemoryCache, init, live, get, set}
use core_ai_protocol_suite.MemoryCache.Bounds.{
  IsValid, get_at, set_at, purge_at, perform_all, perform_all-IsValid,
}
use core_ai_protocol_suite.MemoryCache.Eviction.{get_hit}

abbrev pair_cache : MemoryCache String ℕ
pair_cache = record {
  max_entries = 2;
  store = ("a", (1, 100)) ∷ ("b", (2, 200)) ∷ [];
  evictions = 0;
}

init_refuses : init {K = String} {V = ℕ} 0 ≡ none
unfolding init
init_refuses = refl

-- A read of "a" makes "b" the least recently used entry, which the next write evicts.
lru :
    (set String-discrete 10 10 "c" 3 50 (get String-discrete 9 "a" pair_cache).0).store
    ≡ ("a", (1, 100)) ∷ ("c", (3, 60)) ∷ []
unfolding set get Dict.get Dict.put Dict.remove String-discrete Dict.move_to_end live
lru = refl

-- A purge comes before an eviction: the expired "a" goes, and "b" stays.
purge_first :
    set String-discrete 150 150 "c" 3 50 pair_cache
    ≡ record pair_cache { store = ("b", (2, 200)) ∷ ("c", (3, 200)) ∷ [] }
unfolding set Dict.get Dict.put Dict.remove String-discrete Dict.move_to_end live
purge_first = refl

abbrev numbered : MemoryCache ℕ ℕ
numbered = record { max_entries = 2; store = (7, (1, 100)) ∷ (8, (2, 200)) ∷ []; evictions = 0 }

numbered-IsValid : IsValid ℕ_discrete numbered
unfolding Dict.get ℕ_discrete
numbered-IsValid = record {
  limit = omega arith;
  bounded = omega arith;
  distinct = (refl, (refl, tt));
}

perform_all-IsValid_example :
    IsValid ℕ_discrete
      (perform_all ℕ_discrete (set_at 5 5 9 3 60 ∷ get_at 6 7 ∷ purge_at 100 ∷ []) numbered)
perform_all-IsValid_example =
    perform_all-IsValid ℕ_discrete (set_at 5 5 9 3 60 ∷ get_at 6 7 ∷ purge_at 100 ∷ []) numbered
      numbered-IsValid

absent_nine : Dict.get ℕ_discrete 9 numbered.store ≡ none
unfolding Dict.get ℕ_discrete
absent_nine = refl

present_seven : Dict.get ℕ_discrete 7 numbered.store ≡ some (1, 100)
unfolding Dict.get ℕ_discrete
present_seven = refl

get_hit_example : get ℕ_discrete 5 7 numbered ≡ (
  record numbered { store = Dict.remove ℕ_discrete 7 numbered.store ++ (7, (1, 100)) ∷ [] },
  some 1,
)
get_hit_example = get_hit ℕ_discrete 5 7 1 100 numbered present_seven (omega arith)
