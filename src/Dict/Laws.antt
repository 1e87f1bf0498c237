-- ===== src/Dict/Laws.antt =====
-- The laws of ordered dictionaries.
use mathlib.Core.Logic.{ite}
use core_ai_protocol_suite.Prelude.{
  ◌+◌, ◌≤◌, ◌≡◌, ◌≢◌, refl, none, some, [], ◌∷◌, ◌++◌, length, length-append, arith, Option-cases,
  inl, inr,
}
use core_ai_protocol_suite.Dict.{Dict, get, remove, put, move_to_end, IsDict}

module _ {K V : Type 0} (dec : Discrete K) where
  pub get-remove :
      (k q : K) (d : Dict K V) → get dec q (remove dec k d) ≡ ite (dec k q) none (get dec q d)
  unfolding get remove
  get-remove k q [] = ground arith
  get-remove k q ((j, v) ∷ d) = ground (arith, get-remove k q d)

  pub get-remove_self : (k : K) (d : Dict K V) → get dec k (remove dec k d) ≡ none
  get-remove_self k d = ground (arith, get-remove k k d)

  pub get-put :
      (k q : K) (v : V) (d : Dict K V)
      → get dec q (put dec k v d) ≡ ite (dec k q) (some v) (get dec q d)
  unfolding get put
  get-put k q v [] = ground arith
  get-put k q v ((j, w) ∷ d) = ground (arith, get-put k q v d)

  pub get-append :
      (q : K) (c d : Dict K V)
      → get dec q (c ++ d) ≡ elim (get dec q c) [ none ↦ get dec q d | some v ↦ some v ]
  unfolding get
  get-append q [] d = refl
  get-append q ((j, v) ∷ c) d = ground (arith, get-append q c d)

  pub get-move_to_end : (k q : K) (d : Dict K V) → get dec q (move_to_end dec k d) ≡ get dec q d
  unfolding move_to_end
  get-move_to_end k q d = elim (Option-cases (get dec k d)) [
    | inl h ↦ rw (h, move_to_end)
    | inr (v, h) ↦
        rw (h, move_to_end)
          (ground (arith, get-append q (remove dec k d) ((k, v) ∷ []), get-remove k q d))
  ]

  pub length-remove-le : (k : K) (d : Dict K V) → length (remove dec k d) ≤ length d
  unfolding remove
  length-remove-le k [] = omega arith
  length-remove-le k ((j, v) ∷ d) = ground (arith, length-remove-le k d)

  pub remove_absent : (k : K) (d : Dict K V) → get dec k d ≡ none → remove dec k d ≡ d
  unfolding get remove
  remove_absent k [] h = refl
  remove_absent k ((j, v) ∷ d) h = ground (arith, remove_absent k d)

  pub length-remove :
      (k : K) (v : V) (d : Dict K V)
      → IsDict dec d
      → get dec k d ≡ some v
      → length (remove dec k d) + 1 ≡ length d
  unfolding get remove
  length-remove k v [] u h = absurd (ground arith)
  length-remove k v ((j, w) ∷ d) u h = ground (arith, length-remove k v d, remove_absent k d)

  pub length-put-le : (k : K) (v : V) (d : Dict K V) → length (put dec k v d) ≤ length d + 1
  unfolding put
  length-put-le k v [] = omega arith
  length-put-le k v ((j, w) ∷ d) = ground (arith, length-put-le k v d)

  pub put-IsDict : (k : K) (v : V) (d : Dict K V) → IsDict dec d → IsDict dec (put dec k v d)
  unfolding put get
  put-IsDict k v [] u = (refl, tt)
  put-IsDict k v ((j, w) ∷ d) u = ground (arith, put-IsDict k v d, get-put k j v d)

  pub remove-IsDict : (k : K) (d : Dict K V) → IsDict dec d → IsDict dec (remove dec k d)
  unfolding remove
  remove-IsDict k [] u = tt
  remove-IsDict k ((j, v) ∷ d) u = ground (arith, remove-IsDict k d, get-remove k j d)

  pub append-IsDict :
      (k : K) (v : V) (d : Dict K V)
      → IsDict dec d
      → get dec k d ≡ none
      → IsDict dec (d ++ (k, v) ∷ [])
  unfolding get
  append-IsDict k v [] u h = (refl, tt)
  append-IsDict k v ((j, w) ∷ d) u h =
      ground (arith, append-IsDict k v d, get-append j d ((k, v) ∷ []))

  pub move_to_end-IsDict : (k : K) (d : Dict K V) → IsDict dec d → IsDict dec (move_to_end dec k d)
  unfolding move_to_end
  move_to_end-IsDict k d u = elim (Option-cases (get dec k d)) [
    | inl h ↦ rw (h, move_to_end) u
    | inr (v, h) ↦
        rw (h, move_to_end)
          (append-IsDict k v (remove dec k d) (remove-IsDict k d u) (get-remove_self k d))
  ]

  pub length-move_to_end :
      (k : K) (d : Dict K V) → IsDict dec d → length (move_to_end dec k d) ≡ length d
  unfolding move_to_end
  length-move_to_end k d u = elim (Option-cases (get dec k d)) [
    | inl h ↦ rw (h, move_to_end)
    | inr (v, h) ↦
        rw (h, move_to_end)
          (omega (arith, length-append (remove dec k d) ((k, v) ∷ []), length-remove k v d u h))
  ]

  pub get-remove_ne : (k q : K) (d : Dict K V) → k ≢ q → get dec q (remove dec k d) ≡ get dec q d
  get-remove_ne k q d ne = ground (arith, get-remove k q d)

  pub get-append_last :
      (k : K) (v : V) (d : Dict K V) → get dec k d ≡ none → get dec k (d ++ (k, v) ∷ []) ≡ some v
  unfolding get
  get-append_last k v [] h = ground arith
  get-append_last k v ((j, w) ∷ d) h = ground (arith, get-append_last k v d)

  pub put_absent :
      (k : K) (v : V) (d : Dict K V) → get dec k d ≡ none → put dec k v d ≡ d ++ (k, v) ∷ []
  unfolding get put
  put_absent k v [] h = refl
  put_absent k v ((j, w) ∷ d) h = ground (arith, put_absent k v d)

  pub remove-append_last :
      (k : K) (v : V) (d : Dict K V) → get dec k d ≡ none → remove dec k (d ++ (k, v) ∷ []) ≡ d
  unfolding get remove
  remove-append_last k v [] h = ground arith
  remove-append_last k v ((j, w) ∷ d) h = ground (arith, remove-append_last k v d)
