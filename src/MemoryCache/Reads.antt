-- ===== src/MemoryCache/Reads.antt =====
-- What a reader finds (coreai/cache.py).
use mathlib.Core.Logic.{ite}
use core_ai_protocol_suite.Dict
use core_ai_protocol_suite.Dict.{Dict, IsDict}
use core_ai_protocol_suite.Dict.Laws.{
  get-remove_ne, get-append_last, get-put, get-move_to_end, get-remove_self,
}
use core_ai_protocol_suite.Prelude.{
  ℕ, zero, suc, ◌+◌, ◌≤◌, ◌<◌, ◌≡◌, ◌≢◌, refl, ap, ◌⊎◌, inl, inr, none, some, [], ◌∷◌, ◌++◌, length,
  arith, ltb, Bool-cases, ◌-◌, ◌∙◌,
}
use core_ai_protocol_suite.MemoryCache.{
  MemoryCache, live, purge_expired, evict, shrink, purge_if_over, get, delete, place, set,
}
use core_ai_protocol_suite.MemoryCache.Bounds.{
  IsValid, get-live-none, IsLoose, place-IsLoose, purge-IsLoose,
}

module _ {K V : Type 0} (dec : Discrete K) where
  -- What a reader may find for a key after some entries are gone: what was there, or nothing.
  abbrev pub Kept : K → Dict K (V × ℕ) → Dict K (V × ℕ) → Type 0
  Kept q new old = (Dict.get dec q new ≡ Dict.get dec q old) ⊎ (Dict.get dec q new ≡ none)

  live-Kept : (now : ℕ) (q : K) (d : Dict K (V × ℕ)) → IsDict dec d → Kept q (live now d) d
  unfolding live Dict.get
  live-Kept now q [] u = inl refl
  live-Kept now q ((k, e) ∷ d) u = ground (arith, live-Kept now q d, get-live-none dec now q d)

  get-evict-none :
      (n : ℕ) (q : K) (d : Dict K (V × ℕ))
      → Dict.get dec q d ≡ none
      → Dict.get dec q (evict n d).0 ≡ none
  unfolding evict Dict.get
  get-evict-none n q [] h = refl
  get-evict-none n q ((k, e) ∷ d) h = ground (arith, get-evict-none n q d)

  evict-Kept : (n : ℕ) (q : K) (d : Dict K (V × ℕ)) → IsDict dec d → Kept q (evict n d).0 d
  unfolding evict Dict.get
  evict-Kept n q [] u = inl refl
  evict-Kept n q ((k, e) ∷ d) u = ground (arith, evict-Kept n q d, get-evict-none n q d)

  -- The key's entry is the last one, and its only one.
  abbrev IsLast : K → V × ℕ → Dict K (V × ℕ) → Type 0
  IsLast k e d = (r : Dict K (V × ℕ)) × (d ≡ r ++ (k, e) ∷ []) × (Dict.get dec k r ≡ none)

  place-IsLast :
      (k : K) (x : V) (expiry : ℕ) (c : MemoryCache K V)
      → IsLast k (x, expiry) (place dec k x expiry c).store
  unfolding place Dict.move_to_end
  place-IsLast k x expiry c =
      let d : Dict K (V × ℕ) = Dict.put dec k (x, expiry) c.store in
      let there : Dict.get dec k d ≡ some (x, expiry) =
        ground (arith, get-put dec k k (x, expiry) c.store) in
      (Dict.remove dec k d, rw (there, Dict.move_to_end), get-remove_self dec k d)

  -- An entry outlives a purge before its expiry.
  live_last :
      (now : ℕ) (k : K) (x : V) (expiry : ℕ) (d : Dict K (V × ℕ))
      → now < expiry
      → live now (d ++ (k, (x, expiry)) ∷ []) ≡ live now d ++ (k, (x, expiry)) ∷ []
  unfolding live
  live_last now k x expiry [] lt = ground arith
  live_last now k x expiry ((j, e) ∷ d) lt = ground (arith, live_last now k x expiry d lt)

  purge-IsLast :
      (now : ℕ) (k : K) (x : V) (expiry : ℕ) (c : MemoryCache K V)
      → now < expiry
      → IsLast k (x, expiry) c.store
      → IsLast k (x, expiry) (purge_if_over now c).store
  unfolding purge_if_over purge_expired
  purge-IsLast now k x expiry c lt (r, eq, h) =
      elim (Bool-cases (ltb c.max_entries (length c.store))) [
        | inl over ↦ (
          live now r,
          rw over (ap (live now) eq ∙ live_last now k x expiry r lt),
          get-live-none dec now k r h,
        )
        | inr fits ↦ (r, rw fits eq, h)
      ]

  -- The last entry outlives every eviction of a positive limit.
  evict-IsLast :
      (n : ℕ) (k : K) (e : V × ℕ) (r : Dict K (V × ℕ))
      → Dict.get dec k r ≡ none
      → IsLast k e (evict (suc n) (r ++ (k, e) ∷ [])).0
  unfolding evict Dict.get
  evict-IsLast n k e [] h = ([], ground arith, refl)
  evict-IsLast n k e ((j, f) ∷ r) h =
      elim (Bool-cases (ltb (suc n) (suc (length (r ++ (k, e) ∷ []))))) [
        | inl over ↦ rw over (evict-IsLast n k e r (ground arith))
        | inr fits ↦ ((j, f) ∷ r, rw fits, h)
      ]

  shrink-IsLast :
      (k : K) (e : V × ℕ) (c : MemoryCache K V)
      → 1 ≤ c.max_entries
      → IsLast k e c.store
      → IsLast k e (shrink c).store
  unfolding shrink
  shrink-IsLast k e c pos (r, eq, h) =
      let step = evict-IsLast (c.max_entries - 1) k e r h in
      let same : suc (c.max_entries - 1) ≡ c.max_entries = omega arith in rw (eq, ← same) step

  read_last :
      (now : ℕ) (k : K) (x : V) (expiry : ℕ) (c : MemoryCache K V)
      → now < expiry
      → IsLast k (x, expiry) c.store
      → (get dec now k c).1 ≡ some x
  unfolding get Dict.get
  read_last now k x expiry c lt (r, eq, h) =
      let found : Dict.get dec k c.store ≡ some (x, expiry) =
        rw eq (get-append_last dec k (x, expiry) r h) in
      rw found (ground arith)

  -- A value written with a positive ttl is read back at any time before its expiry, if `set` itself
  -- has ended before that: neither the purge nor the eviction that a full cache makes in between
  -- takes the new entry.
  pub get-set :
      (now later at ttl : ℕ) (k : K) (x : V) (c : MemoryCache K V)
      → IsValid dec c
      → later < now + suc ttl
      → at < now + suc ttl
      → (get dec at k (set dec now later k x (suc ttl) c)).1 ≡ some x
  unfolding set
  get-set now later at ttl k x c v early fresh =
      let e : ℕ = now + suc ttl in
      let p = place dec k x e c in
      read_last at k x e (shrink (purge_if_over later p)) fresh (
        shrink-IsLast k (x, e) (purge_if_over later p)
          (purge-IsLoose dec later p (place-IsLoose dec k x e c v)).limit
          (purge-IsLast later k x e p early (place-IsLast k x e c)))

  purge-Kept :
      (now : ℕ) (q : K) (c : MemoryCache K V)
      → IsDict dec c.store
      → Kept q (purge_if_over now c).store c.store
  unfolding purge_if_over purge_expired
  purge-Kept now q c u = elim (Bool-cases (ltb c.max_entries (length c.store))) [
    | inl over ↦ rw over (live-Kept now q c.store u)
    | inr fits ↦ rw fits (inl refl)
  ]

  Kept-trans : (q : K) (a b c : Dict K (V × ℕ)) → Kept q a b → Kept q b c → Kept q a c
  Kept-trans q a b c h k = ground arith

  finish-Kept :
      (later : ℕ) (q : K) (c : MemoryCache K V)
      → IsLoose dec c
      → Kept q (shrink (purge_if_over later c)).store c.store
  unfolding shrink
  finish-Kept later q c v =
      let p = purge_if_over later c in
      Kept-trans q _ _ _ (evict-Kept p.max_entries q p.store (purge-IsLoose dec later c v).distinct)
        (purge-Kept later q c v.distinct)

  get-place :
      (k q : K) (x : V) (expiry : ℕ) (c : MemoryCache K V)
      → Dict.get dec q (place dec k x expiry c).store
        ≡ ite (dec k q) (some (x, expiry)) (Dict.get dec q c.store)
  unfolding place
  get-place k q x expiry c =
      get-move_to_end dec k q (Dict.put dec k (x, expiry) c.store)
      ∙ get-put dec k q (x, expiry) c.store

  get-place_ne :
      (k q : K) (x : V) (expiry : ℕ) (c : MemoryCache K V)
      → k ≢ q
      → Dict.get dec q (place dec k x expiry c).store ≡ Dict.get dec q c.store
  get-place_ne k q x expiry c ne = ground (arith, get-place k q x expiry c)

  read_old :
      (at : ℕ) (k : K) (x : V) (expiry : ℕ) (c : MemoryCache K V)
      → expiry ≤ at
      → (Dict.get dec k c.store ≡ some (x, expiry)) ⊎ (Dict.get dec k c.store ≡ none)
      → (get dec at k c).1 ≡ none
  unfolding get
  read_old at k x expiry c old h = ground arith

  -- Once its ttl has passed, and with a ttl of 0 at once, a written value is never read.
  pub get-set_expired :
      (now later at ttl : ℕ) (k : K) (x : V) (c : MemoryCache K V)
      → IsValid dec c
      → now + ttl ≤ at
      → (get dec at k (set dec now later k x ttl c)).1 ≡ none
  unfolding set
  get-set_expired now later at zero k x c v old =
      read_old at k x 0 _ (omega arith) (inr (get-remove_self dec k c.store))
  get-set_expired now later at (suc ttl) k x c v old =
      let e : ℕ = now + suc ttl in
      read_old at k x e _ old (
        ground (
          arith,
          finish-Kept later k (place dec k x e c) (place-IsLoose dec k x e c v),
          get-place k k x e c,
        ))

  -- Writing one key does not change what is stored under another, except that it may be evicted or
  -- purged: a reader of another key finds the stored value and expiry of before, or nothing.
  pub set-Kept :
      (now later ttl : ℕ) (k q : K) (x : V) (c : MemoryCache K V)
      → IsValid dec c
      → k ≢ q
      → Kept q (set dec now later k x ttl c).store c.store
  unfolding set delete
  set-Kept now later zero k q x c v ne = inl (get-remove_ne dec k q c.store ne)
  set-Kept now later (suc ttl) k q x c v ne =
      let e : ℕ = now + suc ttl in
      Kept-trans q _ _ _ (finish-Kept later q (place dec k x e c) (place-IsLoose dec k x e c v))
        (inl (get-place_ne k q x e c ne))
