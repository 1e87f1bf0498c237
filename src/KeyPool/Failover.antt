-- ===== src/KeyPool/Failover.antt =====
-- One request over several keys (providers/pool.py, complete).
use core_ai_protocol_suite.Errors.{Exc, classify}
use core_ai_protocol_suite.Retry.{Outcome, returned, raised, Outcome-cases}
use core_ai_protocol_suite.Prelude.{
  ℕ, ◌≤◌, ◌<◌, ◌≡◌, refl, ap, inl, inr, true, Option, none, some, List, [], ◌∷◌, All,
}
use core_ai_protocol_suite.KeyPool.{KeyPool, is_key_error, order, park, Reply, try_keys, complete}
use core_ai_protocol_suite.KeyPool.Order.{Among, order_live}

module _ {A : Type 0} (env : ℕ → Reply A) where
  -- The member answers, or fails in a way that moves the request on to the next key.
  abbrev pub GoesOn : Outcome A → Type 0
  GoesOn (returned a) = Unit
  GoesOn (raised e) = is_key_error (classify e).kind ≡ true

  -- The request ends with an answer that one of the members gave.
  abbrev pub IsAnswered : List ℕ → Option (Outcome A) → Type 0
  IsAnswered is o =
      (i : ℕ) × (a : A) × Among i is × ((env i).outcome ≡ returned a) × (o ≡ some (returned a))

  not_both :
      (i j : ℕ) (a : A) (x : Exc)
      → i ≡ j
      → (env i).outcome ≡ returned a
      → (env j).outcome ≡ raised x
      → ⊥
  not_both i j a x s e h = cc (ap (λ (k : ℕ). (env k).outcome) s)

  try_keys-IsAnswered :
      (is : List ℕ) (last : Option Exc) (p : KeyPool) (i : ℕ) (a : A)
      → All (λ j. GoesOn (env j).outcome) is
      → Among i is
      → (env i).outcome ≡ returned a
      → IsAnswered is (try_keys env is last p).1
  unfolding try_keys
  try_keys-IsAnswered [] last p i a go there e = elim there [ ]
  try_keys-IsAnswered (j ∷ js) last p i a go there e = elim (Outcome-cases (env j).outcome) [
    | inl (b, h) ↦ (j, b, inl refl, h, rw (h, try_keys))
    | inr (x, h) ↦
        let key : is_key_error (classify x).kind ≡ true = rw h at go.0 in
        let rest : IsAnswered js (try_keys env js (some x) (park (env j).now j p)).1 =
          try_keys-IsAnswered js (some x) (park (env j).now j p) i a go.1
            (elim there [ inl s ↦ absurd (not_both i j a x s e h) | inr m ↦ m ]) e in
        (rest.0, rest.1, inr rest.2, rest.3, rw (h, key, try_keys) rest.4)
  ]

  -- If one key that is not parked would answer, and whatever other keys fail with is an auth, quota
  -- or rate-limit error, the request is answered: an exhausted key does not fail a request while
  -- another works.
  pub complete-IsAnswered :
      (now : ℕ) (p : KeyPool) (i : ℕ) (a : A)
      → i < p.size
      → p.parked i ≤ now
      → All (λ j. GoesOn (env j).outcome) (order now p).1
      → (env i).outcome ≡ returned a
      → IsAnswered (order now p).1 (complete env now p).1
  unfolding complete
  complete-IsAnswered now p i a lt le go e =
      try_keys-IsAnswered (order now p).1 none (order now p).0 i a go (order_live now p i lt le).0 e
