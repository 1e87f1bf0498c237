-- ===== src/ResponseCache.antt =====
-- src/coreai/cache.py: CacheBackend, RedisCache and ResponseCache.
--
-- `CacheBackend` is a record of operations, at the readings of the clock that they take; a client
-- takes it as a parameter. `Redis` is the outside service: what each of its calls makes of its
-- state and whether it raises. `V` is the type of answers; `json.dumps` and `json.loads` are
-- parameters. The hash of a question is a parameter, and questions are of any type.
pub mod Laws
pub mod Answers
use Prim.Native.String.{◌++◌ as append}
use text.Mathlib.Text.{◌==◌ as str_eq}
use core_ai_protocol_suite.MemoryCache
use core_ai_protocol_suite.MemoryCache.{MemoryCache}
use core_ai_protocol_suite.Prelude.{
  ℕ, zero, suc, ◌+◌, String, String-discrete, Bool, true, false, Option, none, some, if◌then◌else◌,
}

pub record CacheBackend (S V : Type 0) : Type 0 where
  pub get : ℕ → String → S → S × Option V
  pub set : ℕ → ℕ → String → V → ℕ → S → S
  pub delete : String → S → S
  pub clear : S → S

abbrev pub memory : {V : Type 0} → CacheBackend (MemoryCache String V) V
memory = record {
  get = MemoryCache.get String-discrete;
  set = MemoryCache.set String-discrete;
  delete = MemoryCache.delete String-discrete;
  clear = MemoryCache.clear;
}

-- The service: the state after a call, and its result; `none` is an exception. `get` gives the text
-- that is stored, if there is one.
pub record Redis (R : Type 0) : Type 0 where
  pub get : ℕ → String → R → R × Option (Option String)
  pub setex : ℕ → String → ℕ → String → R → R × Option (Unit {0})
  pub delete : String → R → R × Option (Unit {0})
  pub flushdb : R → R × Option (Unit {0})

pub record Json (V : Type 0) : Type 0 where
  pub dumps : V → String
  pub loads : String → Option V

-- `RedisCache`: the service, or the memory that stands in where the client is not installed.
pub data RedisCache (R V : Type 0) : Type 0 where
  connected : R → RedisCache R V
  fallback : MemoryCache String V → RedisCache R V

module _ {R V : Type 0} (redis : Redis R) (json : Json V) where
  -- An empty text is no value; an exception, that of `json.loads` too, is a miss.
  pub found : Option (Option String) → Option V
  found none = none
  found (some none) = none
  found (some (some text)) = elim (str_eq text "") [ true ↦ none | false ↦ json.loads text ]

  unfoldable pub redis_get : ℕ → String → RedisCache R V → RedisCache R V × Option V
  unfolding found
  redis_get now key (connected s) = let r = redis.get now key s in (connected r.0, found r.1)
  redis_get now key (fallback m) =
      let r = MemoryCache.get String-discrete now key m in (fallback r.0, r.1)

  unfoldable pub redis_set : ℕ → ℕ → String → V → ℕ → RedisCache R V → RedisCache R V
  redis_set now later key value ttl (fallback m) =
      fallback (MemoryCache.set String-discrete now later key value ttl m)
  redis_set now later key value zero (connected s) = connected (redis.delete key s).0
  redis_set now later key value (suc ttl) (connected s) =
      connected (redis.setex now key (suc ttl) (json.dumps value) s).0

  unfoldable pub redis_delete : String → RedisCache R V → RedisCache R V
  redis_delete key (connected s) = connected (redis.delete key s).0
  redis_delete key (fallback m) = fallback (MemoryCache.delete String-discrete key m)

  unfoldable pub redis_clear : RedisCache R V → RedisCache R V
  redis_clear (connected s) = connected (redis.flushdb s).0
  redis_clear (fallback m) = fallback (MemoryCache.clear m)

  abbrev pub redis_backend : CacheBackend (RedisCache R V) V
  redis_backend = record {
    get = redis_get;
    set = redis_set;
    delete = redis_delete;
    clear = redis_clear;
  }

pub record ResponseCache (S : Type 0) : Type 0 where
  pub backend : S
  pub hits : ℕ
  pub misses : ℕ

-- What an answer is looked up by: provider, model, and the messages with the options.
pub record Question (Q : Type 0) : Type 0 where
  pub provider : String
  pub model : String
  pub content : Q

-- `is_true` is the truth value of an answer: an empty dictionary is false.
module _ {S V Q : Type 0} (b : CacheBackend S V) (hash : Q → String) (is_true : V → Bool) where
  -- `_make_key`
  unfoldable pub make_key : Question Q → String
  make_key q =
      append "cache:"
        (append q.provider (append ":" (append q.model (append ":" (hash q.content)))))

  pub count : Option V → ResponseCache S → ResponseCache S
  count none c = record c { misses = c.misses + 1 }
  count (some v) c =
      if is_true v then record c { hits = c.hits + 1 } else record c { misses = c.misses + 1 }

  unfoldable pub get : ℕ → Question Q → ResponseCache S → ResponseCache S × Option V
  unfolding make_key count
  get now q c =
      let r = b.get now (make_key q) c.backend in (count r.1 (record c { backend = r.0 }), r.1)

  unfoldable pub set : ℕ → ℕ → Question Q → V → ℕ → ResponseCache S → ResponseCache S
  unfolding make_key
  set now later q answer ttl c = record c {
    backend = b.set now later (make_key q) answer ttl c.backend;
  }

  unfoldable pub delete : Question Q → ResponseCache S → ResponseCache S
  unfolding make_key
  delete q c = record c { backend = b.delete (make_key q) c.backend }

  unfoldable pub clear : ResponseCache S → ResponseCache S
  clear c = record { backend = b.clear c.backend; hits = 0; misses = 0 }
