-- ===== src/ResponseCache/Laws.antt =====
-- What a client of a cache may rely on (coreai/cache.py, CacheBackend), for each backend.
use text.Mathlib.Text.{◌==◌ as str_eq}
use core_ai_protocol_suite.Dict.Laws.{get-remove_self}
use core_ai_protocol_suite.MemoryCache
use core_ai_protocol_suite.MemoryCache.{MemoryCache}
use core_ai_protocol_suite.MemoryCache.Bounds.{IsValid, get-IsValid, set-IsValid, delete-IsValid}
use core_ai_protocol_suite.MemoryCache.Reads.{get-set, get-set_expired}
use core_ai_protocol_suite.Prelude.{
  ℕ, zero, suc, ◌+◌, ◌≤◌, ◌<◌, ◌≡◌, refl, String, String-discrete, false, none, some, arith,
}
use core_ai_protocol_suite.ResponseCache.{
  CacheBackend, memory, Redis, Json, RedisCache, connected, fallback, found, redis_get, redis_set,
  redis_delete, redis_clear, redis_backend,
}

-- The laws of a backend whose states are `Valid`: an answer written with a positive ttl is read
-- until its expiry, and after a delete or a clear nothing is.
pub record CacheLaws {S V : Type 0} (b : CacheBackend S V) (Valid : S → Type 0) : Type 0 where
  pub get_valid : (now : ℕ) (k : String) (s : S) → Valid s → Valid (b.get now k s).0
  pub set_valid :
      (now later ttl : ℕ) (k : String) (v : V) (s : S) → Valid s → Valid (b.set now later k v ttl s)
  pub delete_valid : (k : String) (s : S) → Valid s → Valid (b.delete k s)
  pub clear_valid : (s : S) → Valid s → Valid (b.clear s)
  pub reads_back :
      (now later at ttl : ℕ) (k : String) (v : V) (s : S)
      → Valid s
      → later < now + suc ttl
      → now ≤ at
      → at < now + suc ttl
      → (b.get at k (b.set now later k v (suc ttl) s)).1 ≡ some v
  pub expires :
      (now later at ttl : ℕ) (k : String) (v : V) (s : S)
      → Valid s
      → now + ttl ≤ at
      → (b.get at k (b.set now later k v ttl s)).1 ≡ none
  pub forgets : (at : ℕ) (k : String) (s : S) → Valid s → (b.get at k (b.delete k s)).1 ≡ none

get-delete :
    {V : Type 0} (at : ℕ) (k : String) (c : MemoryCache String V)
    → (MemoryCache.get String-discrete at k (MemoryCache.delete String-discrete k c)).1 ≡ none
unfolding MemoryCache.get MemoryCache.delete
get-delete at k c = rw (get-remove_self String-discrete k c.store)

clear-IsValid :
    {V : Type 0} (c : MemoryCache String V)
    → IsValid String-discrete c
    → IsValid String-discrete (MemoryCache.clear c)
unfolding MemoryCache.clear
clear-IsValid c v = record { limit = v.limit; bounded = omega arith; distinct = tt }

pub memory-CacheLaws : {V : Type 0} → CacheLaws (memory {V = V}) (IsValid String-discrete)
memory-CacheLaws = record {
  get_valid = λ now k s v. get-IsValid String-discrete now k s v;
  set_valid = λ now later ttl k x s v. set-IsValid String-discrete now later k x ttl s v;
  delete_valid = λ k s v. delete-IsValid String-discrete k s v;
  clear_valid = λ s v. clear-IsValid s v;
  reads_back = λ now later at ttl k x s v early begun fresh.
      get-set String-discrete now later at ttl k x s v early fresh;
  expires =
      λ now later at ttl k x s v old. get-set_expired String-discrete now later at ttl k x s v old;
  forgets = λ at k s v. get-delete at k s;
}

-- What the service documents, while it answers: `setex` keeps a text until its expiry, and a text
-- deleted, or expired, is not found. What is dumped can be loaded, and is no empty text.
pub record RedisLaws {R : Type 0} (redis : Redis R) : Type 0 where
  pub reads_back :
      (now at ttl : ℕ) (k text : String) (s : R)
      → now ≤ at
      → at < now + suc ttl
      → (redis.get at k (redis.setex now k (suc ttl) text s).0).1 ≡ some (some text)
  pub expires :
      (now at ttl : ℕ) (k text : String) (s : R)
      → now + suc ttl ≤ at
      → (redis.get at k (redis.setex now k (suc ttl) text s).0).1 ≡ some none
  pub forgets : (at : ℕ) (k : String) (s : R) → (redis.get at k (redis.delete k s).0).1 ≡ some none

pub record JsonLaws {V : Type 0} (json : Json V) : Type 0 where
  pub loads-dumps : (v : V) → json.loads (json.dumps v) ≡ some v
  pub nonempty : (v : V) → str_eq (json.dumps v) "" ≡ false

module _ {R V : Type 0} (redis : Redis R) (json : Json V) (r : RedisLaws redis)
    (j : JsonLaws json) where
  abbrev pub IsSound : RedisCache R V → Type 0
  IsSound (connected s) = Unit
  IsSound (fallback m) = IsValid String-discrete m

  found-dumps : (v : V) → found redis json (some (some (json.dumps v))) ≡ some v
  unfolding found
  found-dumps v = rw (j.nonempty v, found) (j.loads-dumps v)

  redis-CacheLaws : CacheLaws (redis_backend redis json) IsSound
  unfolding redis_get redis_set redis_delete redis_clear found
  redis-CacheLaws = record {
    get_valid = get_sound;
    set_valid = set_sound;
    delete_valid = delete_sound;
    clear_valid = clear_sound;
    reads_back = back;
    expires = gone;
    forgets = none_left;
  }
    where
      get_sound :
          (now : ℕ) (k : String) (s : RedisCache R V)
          → IsSound s
          → IsSound (redis_get redis json now k s).0
      get_sound now k (connected s) v = tt
      get_sound now k (fallback m) v = get-IsValid String-discrete now k m v

      set_sound :
          (now later ttl : ℕ) (k : String) (x : V) (s : RedisCache R V)
          → IsSound s
          → IsSound (redis_set redis json now later k x ttl s)
      set_sound now later zero k x (connected s) v = tt
      set_sound now later (suc ttl) k x (connected s) v = tt
      set_sound now later ttl k x (fallback m) v = set-IsValid String-discrete now later k x ttl m v

      delete_sound :
          (k : String) (s : RedisCache R V) → IsSound s → IsSound (redis_delete redis json k s)
      delete_sound k (connected s) v = tt
      delete_sound k (fallback m) v = delete-IsValid String-discrete k m v

      clear_sound : (s : RedisCache R V) → IsSound s → IsSound (redis_clear redis json s)
      clear_sound (connected s) v = tt
      clear_sound (fallback m) v = clear-IsValid m v

      back :
          (now later at ttl : ℕ) (k : String) (x : V) (s : RedisCache R V)
          → IsSound s
          → later < now + suc ttl
          → now ≤ at
          → at < now + suc ttl
          → (redis_get redis json at k (redis_set redis json now later k x (suc ttl) s)).1 ≡ some x
      back now later at ttl k x (connected s) v early begun fresh =
          rw (r.reads_back now at ttl k (json.dumps x) s begun fresh) (found-dumps x)
      back now later at ttl k x (fallback m) v early begun fresh =
          get-set String-discrete now later at ttl k x m v early fresh

      gone :
          (now later at ttl : ℕ) (k : String) (x : V) (s : RedisCache R V)
          → IsSound s
          → now + ttl ≤ at
          → (redis_get redis json at k (redis_set redis json now later k x ttl s)).1 ≡ none
      gone now later at zero k x (connected s) v old = rw (r.forgets at k s) refl
      gone now later at (suc ttl) k x (connected s) v old =
          rw (r.expires now at ttl k (json.dumps x) s old) refl
      gone now later at ttl k x (fallback m) v old =
          get-set_expired String-discrete now later at ttl k x m v old

      none_left :
          (at : ℕ) (k : String) (s : RedisCache R V)
          → IsSound s
          → (redis_get redis json at k (redis_delete redis json k s)).1 ≡ none
      none_left at k (connected s) v = rw (r.forgets at k s) refl
      none_left at k (fallback m) v = get-delete at k m
