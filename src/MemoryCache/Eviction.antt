-- ===== src/MemoryCache/Eviction.antt =====
-- Which entry a full cache gives up (coreai/cache.py).
use core_ai_protocol_suite.Dict
use core_ai_protocol_suite.Dict.{Dict, IsDict}
use core_ai_protocol_suite.Dict.Laws.{put_absent, get-append_last, remove-append_last}
use core_ai_protocol_suite.Prelude.{
  ℕ, suc, ◌+◌, ◌≤◌, ◌<◌, ◌≡◌, refl, ap, ◌∙◌, none, some, [], ◌∷◌, ◌++◌, length, length-append,
  arith, All, le→ltb_false, lt→ltb,
}
use core_ai_protocol_suite.MemoryCache.{
  MemoryCache, live, purge_expired, evict, shrink, purge_if_over, get, place, set,
}

module _ {K V : Type 0} where
  evict_fit : (n : ℕ) (d : Dict K (V × ℕ)) → length d ≤ n → evict n d ≡ (d, 0)
  unfolding evict
  evict_fit n [] h = refl
  evict_fit n (e ∷ d) h = rw (le→ltb_false _ _ h)

  evict_one :
      (n : ℕ) (e : K × (V × ℕ)) (d : Dict K (V × ℕ)) → length d ≡ n → evict n (e ∷ d) ≡ (d, 1)
  unfolding evict
  evict_one n e d h = rw (lt→ltb n (suc (length d)) (omega arith), evict_fit n d (omega arith))

module _ {K V : Type 0} (dec : Discrete K) where
  -- Every entry is unexpired at `now`.
  abbrev pub IsFresh : ℕ → Dict K (V × ℕ) → Type 0
  IsFresh now = All (λ e. now < e.1.1)

  live_fresh : (now : ℕ) (d : Dict K (V × ℕ)) → IsFresh now d → live now d ≡ d
  unfolding live
  live_fresh now [] h = refl
  live_fresh now (e ∷ d) h = ground (arith, live_fresh now d)

  IsFresh-append :
      (now : ℕ) (k : K) (x : V) (expiry : ℕ) (d : Dict K (V × ℕ))
      → IsFresh now d
      → now < expiry
      → IsFresh now (d ++ (k, (x, expiry)) ∷ [])
  IsFresh-append now k x expiry [] h lt = (lt, tt)
  IsFresh-append now k x expiry (e ∷ d) h lt = (h.0, IsFresh-append now k x expiry d h.1 lt)

  place_new :
      (k : K) (x : V) (expiry : ℕ) (c : MemoryCache K V)
      → Dict.get dec k c.store ≡ none
      → (place dec k x expiry c).store ≡ c.store ++ (k, (x, expiry)) ∷ []
  unfolding place Dict.move_to_end
  place_new k x expiry c h = rw (put_absent dec k (x, expiry) c.store h) (
      rw (get-append_last dec k (x, expiry) c.store h, Dict.move_to_end)
        (rw (remove-append_last dec k (x, expiry) c.store h)))

  same_store :
      (now ttl : ℕ) (k : K) (x : V) (c : MemoryCache K V)
      → Dict.get dec k c.store ≡ none
      → place dec k x (now + suc ttl) c
        ≡ record c { store = c.store ++ (k, (x, now + suc ttl)) ∷ [] }
  unfolding place
  same_store now ttl k x c new = λ i. record c { store = place_new k x (now + suc ttl) c new i }

  purge_fresh : (now : ℕ) (c : MemoryCache K V) → IsFresh now c.store → purge_if_over now c ≡ c
  unfolding purge_if_over purge_expired
  purge_fresh now c h = ground (arith, live_fresh now c.store)

  set-suc :
      (now later ttl : ℕ) (k : K) (x : V) (c : MemoryCache K V)
      → set dec now later k x (suc ttl) c
        ≡ shrink (purge_if_over later (place dec k x (now + suc ttl) c))
  unfolding set
  set-suc now later ttl k x c = refl

  shrink_one :
      (e f : K × (V × ℕ)) (d : Dict K (V × ℕ)) (c : MemoryCache K V)
      → c.store ≡ e ∷ d
      → length c.store ≡ c.max_entries
      → shrink (record c { store = c.store ++ f ∷ [] })
        ≡ record c { store = d ++ f ∷ []; evictions = c.evictions + 1 }
  unfolding shrink
  shrink_one e f d c eq full =
      let over : length (d ++ f ∷ []) ≡ c.max_entries =
        omega (arith, length-append d (f ∷ []), ap (length {A = K × (V × ℕ)}) eq) in
      rw eq (rw (evict_one c.max_entries e (d ++ f ∷ []) over))

  -- Writing a new key to a full cache in which nothing has expired gives up the entry at the front,
  -- the least recently used one, and no other: the rest keeps its order and the new entry comes
  -- last.
  pub set_full :
      (now later ttl : ℕ) (k : K) (x : V) (c : MemoryCache K V) (e : K × (V × ℕ))
      (d : Dict K (V × ℕ))
      → c.store ≡ e ∷ d
      → length c.store ≡ c.max_entries
      → Dict.get dec k c.store ≡ none
      → IsFresh later c.store
      → later < now + suc ttl
      → set dec now later k x (suc ttl) c
        ≡ record c { store = d ++ (k, (x, now + suc ttl)) ∷ []; evictions = c.evictions + 1 }
  set_full now later ttl k x c e d eq full new fresh lt =
      let p : MemoryCache K V = record c { store = c.store ++ (k, (x, now + suc ttl)) ∷ [] } in
      let placed : place dec k x (now + suc ttl) c ≡ p = same_store now ttl k x c new in
      let kept : purge_if_over later p ≡ p =
        purge_fresh later p (IsFresh-append later k x (now + suc ttl) c.store fresh lt) in
      set-suc now later ttl k x c
      ∙ ap (λ (m : MemoryCache K V). shrink (purge_if_over later m)) placed
      ∙ ap shrink kept
      ∙ shrink_one e (k, (x, now + suc ttl)) d c eq full

  -- A read that hits makes its entry the most recently used one: it moves to the end, and the
  -- others keep their order.
  pub get_hit :
      (now : ℕ) (k : K) (x : V) (expiry : ℕ) (c : MemoryCache K V)
      → Dict.get dec k c.store ≡ some (x, expiry)
      → now < expiry
      → get dec now k c
        ≡ (record c { store = Dict.remove dec k c.store ++ (k, (x, expiry)) ∷ [] }, some x)
  unfolding get Dict.move_to_end
  get_hit now k x expiry c h lt = rw (h, get) (ground arith)
