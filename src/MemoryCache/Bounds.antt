-- ===== src/MemoryCache/Bounds.antt =====
-- The size limit (coreai/cache.py).
use core_ai_protocol_suite.Dict
use core_ai_protocol_suite.Dict.{Dict, IsDict}
use core_ai_protocol_suite.Dict.Laws.{
  remove-IsDict, put-IsDict, move_to_end-IsDict, length-remove-le, length-move_to_end,
}
use core_ai_protocol_suite.Prelude.{
  ℕ, zero, suc, ◌+◌, ◌≤◌, ◌≡◌, refl, Option, none, some, List, [], ◌∷◌, length, arith,
}
use core_ai_protocol_suite.MemoryCache.{
  MemoryCache, init, live, purge_expired, evict, shrink, purge_if_over, read, get, delete, place,
  set, clear,
}

module _ {K V : Type 0} (dec : Discrete K) where
  pub record IsValid (c : MemoryCache K V) : Type 0 where
    pub limit : 1 ≤ c.max_entries
    pub bounded : length c.store ≤ c.max_entries
    pub distinct : IsDict dec c.store

  pub init-IsValid : (n : ℕ) (c : MemoryCache K V) → init n ≡ some c → IsValid c
  unfolding init
  init-IsValid n c h = ground arith

  pub get-live-none :
      (now : ℕ) (q : K) (d : Dict K (V × ℕ))
      → Dict.get dec q d ≡ none
      → Dict.get dec q (live now d) ≡ none
  unfolding live Dict.get
  get-live-none now q [] h = refl
  get-live-none now q ((k, e) ∷ d) h = ground (arith, get-live-none now q d)

  pub live-IsDict : (now : ℕ) (d : Dict K (V × ℕ)) → IsDict dec d → IsDict dec (live now d)
  unfolding live
  live-IsDict now [] u = tt
  live-IsDict now ((k, e) ∷ d) u = ground (arith, live-IsDict now d, get-live-none now k d)

  pub length-live-le : (now : ℕ) (d : Dict K (V × ℕ)) → length (live now d) ≤ length d
  unfolding live
  length-live-le now [] = omega arith
  length-live-le now ((k, e) ∷ d) = ground (arith, length-live-le now d)

  pub evict-le : (limit : ℕ) (d : Dict K (V × ℕ)) → length (evict limit d).0 ≤ limit
  unfolding evict
  evict-le limit [] = omega arith
  evict-le limit (e ∷ d) = ground (arith, evict-le limit d)

  pub evict-IsDict : (limit : ℕ) (d : Dict K (V × ℕ)) → IsDict dec d → IsDict dec (evict limit d).0
  unfolding evict
  evict-IsDict limit [] u = tt
  evict-IsDict limit (e ∷ d) u = ground (arith, evict-IsDict limit d)

  read-IsValid :
      (o : Option (V × ℕ)) (now : ℕ) (k : K) (c : MemoryCache K V)
      → IsValid c
      → IsValid (read dec o now k c).0
  unfolding read
  read-IsValid none now k c v = v
  read-IsValid (some e) now k c v = ground (
    arith,
    length-remove-le dec k c.store,
    remove-IsDict dec k c.store,
    length-move_to_end dec k c.store,
    move_to_end-IsDict dec k c.store,
  )

  pub get-IsValid :
      (now : ℕ) (k : K) (c : MemoryCache K V) → IsValid c → IsValid (get dec now k c).0
  unfolding get
  get-IsValid now k c v = read-IsValid (Dict.get dec k c.store) now k c v

  pub delete-IsValid : (k : K) (c : MemoryCache K V) → IsValid c → IsValid (delete dec k c)
  unfolding delete
  delete-IsValid k c v = record {
    limit = v.limit;
    bounded = omega (arith, length-remove-le dec k c.store);
    distinct = remove-IsDict dec k c.store v.distinct;
  }

  -- All of `IsValid` but the bound, which `set` restores at its end.
  pub record IsLoose (c : MemoryCache K V) : Type 0 where
    pub limit : 1 ≤ c.max_entries
    pub distinct : IsDict dec c.store

  pub place-IsLoose :
      (k : K) (x : V) (expiry : ℕ) (c : MemoryCache K V)
      → IsValid c
      → IsLoose (place dec k x expiry c)
  unfolding place
  place-IsLoose k x expiry c v = record {
    limit = v.limit;
    distinct = move_to_end-IsDict dec k _ (put-IsDict dec k (x, expiry) c.store v.distinct);
  }

  pub purge-IsLoose : (now : ℕ) (c : MemoryCache K V) → IsLoose c → IsLoose (purge_if_over now c)
  unfolding purge_if_over
  purge-IsLoose now c v = ground (arith, live-IsDict now c.store)

  shrink-IsValid : (c : MemoryCache K V) → IsLoose c → IsValid (shrink c)
  unfolding shrink
  shrink-IsValid c v = record {
    limit = v.limit;
    bounded = evict-le c.max_entries c.store;
    distinct = evict-IsDict c.max_entries c.store v.distinct;
  }

  pub set-IsValid :
      (now later : ℕ) (k : K) (x : V) (ttl : ℕ) (c : MemoryCache K V)
      → IsValid c
      → IsValid (set dec now later k x ttl c)
  unfolding set
  set-IsValid now later k x zero c v = delete-IsValid k c v
  set-IsValid now later k x (suc ttl) c v =
      shrink-IsValid _ (purge-IsLoose later _ (place-IsLoose k x (now + suc ttl) c v))

  purge-IsValid : (now : ℕ) (c : MemoryCache K V) → IsValid c → IsValid (purge_expired now c).0
  unfolding purge_expired
  purge-IsValid now c v = ground (arith, length-live-le now c.store, live-IsDict now c.store)

-- What a client does to a cache, each with its readings of the clock.
pub data Operation (K V : Type 0) : Type 0 where
  get_at : ℕ → K → Operation K V
  set_at : ℕ → ℕ → K → V → ℕ → Operation K V
  purge_at : ℕ → Operation K V
  delete_key : K → Operation K V
  clear_all : Operation K V

module _ {K V : Type 0} (dec : Discrete K) where
  unfoldable pub perform : Operation K V → MemoryCache K V → MemoryCache K V
  perform (get_at now k) c = (get dec now k c).0
  perform (set_at now later k x ttl) c = set dec now later k x ttl c
  perform (purge_at now) c = (purge_expired now c).0
  perform (delete_key k) c = delete dec k c
  perform clear_all c = clear c

  unfoldable pub perform_all : List (Operation K V) → MemoryCache K V → MemoryCache K V
  perform_all [] c = c
  perform_all (o ∷ os) c = perform_all os (perform o c)

  perform-IsValid :
      (o : Operation K V) (c : MemoryCache K V) → IsValid dec c → IsValid dec (perform o c)
  unfolding perform clear
  perform-IsValid (get_at now k) c v = get-IsValid dec now k c v
  perform-IsValid (set_at now later k x ttl) c v = set-IsValid dec now later k x ttl c v
  perform-IsValid (purge_at now) c v = purge-IsValid dec now c v
  perform-IsValid (delete_key k) c v = delete-IsValid dec k c v
  perform-IsValid clear_all c v = ground arith

  -- Whatever a client does with a valid cache, it never holds more than `max_entries` entries, and
  -- never two under one key.
  pub perform_all-IsValid :
      (os : List (Operation K V)) (c : MemoryCache K V)
      → IsValid dec c
      → IsValid dec (perform_all os c)
  unfolding perform_all
  perform_all-IsValid [] c v = v
  perform_all-IsValid (o ∷ os) c v = perform_all-IsValid os (perform o c) (perform-IsValid o c v)
