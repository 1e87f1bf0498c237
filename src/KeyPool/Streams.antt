-- ===== src/KeyPool/Streams.antt =====
-- Whose answer comes out (providers/pool.py, complete and stream).
use core_ai_protocol_suite.Errors.{Exc, classify}
use core_ai_protocol_suite.Retry.{Outcome, raised, Outcome-cases}
use core_ai_protocol_suite.Prelude.{
  ℕ, suc, ◌-◌, ◌<◌, ◌≡◌, ◌≢◌, refl, sym, ap, ◌∙◌, ◌⊎◌, inl, inr, false, Option, none, some, List,
  [], ◌∷◌, arith, Bool-cases, Option-cases,
}
use core_ai_protocol_suite.KeyPool.{
  KeyPool, is_key_error, order, or_all, full_order, rotation, park, started, Reply, try_keys,
  complete, Flow, stream_keys, stream,
}
use core_ai_protocol_suite.KeyPool.Order.{Among}

or_all_ne : (live all : List ℕ) → all ≢ [] → or_all live all ≢ []
unfolding or_all
or_all_ne [] all h = h
or_all_ne (i ∷ is) all h = λ e. cc e

full_order_ne : (p : KeyPool) (n : ℕ) → p.size ≡ suc n → full_order p ≢ []
unfolding full_order rotation
full_order_ne p n h = λ e. ground arith

order_ne : (now : ℕ) (p : KeyPool) → 0 < p.size → (order now p).1 ≢ []
unfolding order
order_ne now p pos = or_all_ne _ _ (full_order_ne p (p.size - 1) (omega arith))

module _ {A : Type 0} (env : ℕ → Reply A) where
  -- The outcome of one of the members.
  abbrev pub IsOneOf : List ℕ → Option (Outcome A) → Type 0
  IsOneOf is o = (i : ℕ) × Among i is × (o ≡ some (env i).outcome)

  -- The outcome of the first member, unless it moves the request on.
  first_key :
      (i : ℕ) (is : List ℕ) (last : Option Exc) (p : KeyPool)
      → ((try_keys env (i ∷ is) last p).1 ≡ some (env i).outcome)
        ⊎ ((e : Exc) × ((env i).outcome ≡ raised e)
            × ((try_keys env (i ∷ is) last p).1
                ≡ (try_keys env is (some e) (park (env i).now i p)).1))
  unfolding try_keys
  first_key i is last p = elim (Outcome-cases (env i).outcome) [
    | inl (a, h) ↦ inl (rw (h, try_keys))
    | inr (e, h) ↦ elim (Bool-cases (is_key_error (classify e).kind)) [
      | inr stop ↦ inl (rw (h, stop, try_keys))
      | inl go ↦ inr (e, h, rw (h, go, try_keys))
    ]
  ]

  try_keys-IsOneOf :
      (i : ℕ) (is : List ℕ) (last : Option Exc) (p : KeyPool)
      → IsOneOf (i ∷ is) (try_keys env (i ∷ is) last p).1
  unfolding try_keys
  try_keys-IsOneOf i [] last p = elim (first_key i [] last p) [
    | inl own ↦ (i, inl refl, own)
    | inr (e, h, same) ↦ (i, inl refl, same ∙ ap some (sym h))
  ]
  try_keys-IsOneOf i (j ∷ js) last p = elim (first_key i (j ∷ js) last p) [
    | inl own ↦ (i, inl refl, own)
    | inr (e, h, same) ↦
        let rest = try_keys-IsOneOf j js (some e) (park (env i).now i p) in
        (rest.0, inr rest.1, same ∙ rest.2)
  ]

  one_of : (is : List ℕ) (p : KeyPool) → is ≢ [] → IsOneOf is (try_keys env is none p).1
  one_of [] p ne = absurd (ne refl)
  one_of (i ∷ is) p ne = try_keys-IsOneOf i is none p

  -- A request to a pool that has members always ends with what one of the members to try did, its
  -- answer or its error: the assertion after the loop never fails.
  pub complete-IsOneOf :
      (now : ℕ) (p : KeyPool) → 0 < p.size → IsOneOf (order now p).1 (complete env now p).1
  unfolding complete
  complete-IsOneOf now p pos = one_of (order now p).1 (order now p).0 (order_ne now p pos)

module _ {C : Type 0} (env : ℕ → Flow C) where
  -- The chunks and the end of one of the streams.
  abbrev pub IsOneFlow : List ℕ → List C → Option Exc → Type 0
  IsOneFlow is chunks failure =
      (i : ℕ) × Among i is × (chunks ≡ (env i).chunks) × (failure ≡ (env i).failure)

  not_started : (cs : List C) → started cs ≡ false → cs ≡ []
  unfolding started
  not_started [] h = refl
  not_started (c ∷ cs) h = cc

  first_flow :
      (i : ℕ) (is : List ℕ) (last : Option Exc) (p : KeyPool)
      → (((stream_keys env (i ∷ is) last p).1 ≡ (env i).chunks)
          × ((stream_keys env (i ∷ is) last p).2 ≡ (env i).failure))
        ⊎ ((e : Exc) × ((env i).failure ≡ some e)
            × ((env i).chunks ≡ [])
            × (stream_keys env (i ∷ is) last p
                ≡ stream_keys env is (some e) (park (env i).now i p)))
  unfolding stream_keys
  first_flow i is last p = elim (Option-cases (env i).failure) [
    | inl h ↦ inl (rw (h, stream_keys), rw (h, stream_keys))
    | inr (e, h) ↦ elim (Bool-cases (started (env i).chunks)) [
      | inl s ↦ inl (rw (h, s, stream_keys), rw (h, s, stream_keys))
      | inr n ↦ elim (Bool-cases (is_key_error (classify e).kind)) [
        | inr stop ↦ inl (
          rw (h, n, stop, stream_keys) (sym (not_started (env i).chunks n)),
          rw (h, n, stop, stream_keys),
        )
        | inl go ↦ inr (e, h, not_started (env i).chunks n, rw (h, n, go, stream_keys))
      ]
    ]
  ]

  stream_keys-IsOneFlow :
      (i : ℕ) (is : List ℕ) (last : Option Exc) (p : KeyPool)
      → IsOneFlow (i ∷ is) (stream_keys env (i ∷ is) last p).1 (stream_keys env (i ∷ is) last p).2
  unfolding stream_keys
  stream_keys-IsOneFlow i [] last p = elim (first_flow i [] last p) [
    | inl (own, end) ↦ (i, inl refl, own, end)
    | inr (e, h, none_sent, same) ↦
        (i, inl refl, ap (λ r. r.1) same ∙ sym none_sent, ap (λ r. r.2) same ∙ sym h)
  ]
  stream_keys-IsOneFlow i (j ∷ js) last p = elim (first_flow i (j ∷ js) last p) [
    | inl (own, end) ↦ (i, inl refl, own, end)
    | inr (e, h, none_sent, same) ↦
        let rest = stream_keys-IsOneFlow j js (some e) (park (env i).now i p) in
        (rest.0, inr rest.1, ap (λ r. r.1) same ∙ rest.2, ap (λ r. r.2) same ∙ rest.3)
  ]

  one_flow :
      (is : List ℕ) (p : KeyPool)
      → is ≢ []
      → IsOneFlow is (stream_keys env is none p).1 (stream_keys env is none p).2
  one_flow [] p ne = absurd (ne refl)
  one_flow (i ∷ is) p ne = stream_keys-IsOneFlow i is none p

  -- A stream from a pool that has members is the stream of one of them, its chunks and its end,
  -- whatever keys failed before: chunks of two keys are never mixed.
  pub stream-IsOneFlow :
      (now : ℕ) (p : KeyPool)
      → 0 < p.size
      → IsOneFlow (order now p).1 (stream env now p).1 (stream env now p).2
  unfolding stream
  stream-IsOneFlow now p pos = one_flow (order now p).1 (order now p).0 (order_ne now p pos)
