-- ===== src/ResponseCache/Answers.antt =====
-- What a client of the response cache sees, over any backend (coreai/cache.py, ResponseCache).
use core_ai_protocol_suite.Prelude.{
  ℕ, ◌+◌, ◌≡◌, refl, ap, ◌∙◌, String, Bool, Option, none, some, List, [], ◌∷◌, arith,
}
use core_ai_protocol_suite.ResponseCache.{
  CacheBackend, ResponseCache, Question, make_key, count, get, set, delete, clear,
}

-- What clients do, each with its readings of the clock.
pub data Action (Q V : Type 0) : Type 0 where
  gets : ℕ → Question Q → Action Q V
  sets : ℕ → ℕ → Question Q → V → ℕ → Action Q V
  deletes : Question Q → Action Q V
  clears : Action Q V

-- The lookups since the last clear, with `n` before.
abbrev pub lookups : {Q V : Type 0} → ℕ → List (Action Q V) → ℕ
lookups n [] = n
lookups n (gets now q ∷ xs) = lookups (n + 1) xs
lookups n (clears ∷ xs) = lookups 0 xs
lookups n (_ ∷ xs) = lookups n xs

module _ {S V Q : Type 0} (b : CacheBackend S V) (hash : Q → String) (is_true : V → Bool) where
  abbrev pub perform : Action Q V → ResponseCache S → ResponseCache S
  perform (gets now q) c = (get b hash is_true now q c).0
  perform (sets now later q v ttl) c = set b hash is_true now later q v ttl c
  perform (deletes q) c = delete b hash is_true q c
  perform clears c = clear b hash is_true c

  abbrev pub perform_all : List (Action Q V) → ResponseCache S → ResponseCache S
  perform_all [] c = c
  perform_all (x ∷ xs) c = perform_all xs (perform x c)

  count_total :
      (o : Option V) (c : ResponseCache S)
      → (count b hash is_true o c).hits + (count b hash is_true o c).misses ≡ c.hits + c.misses + 1
  unfolding count
  count_total none c = omega arith
  count_total (some v) c = ground arith

  -- Every lookup since the last clear is counted once, as a hit or as a miss.
  pub perform_all-lookups :
      (xs : List (Action Q V)) (c : ResponseCache S)
      → (perform_all xs c).hits + (perform_all xs c).misses ≡ lookups (c.hits + c.misses) xs
  unfolding get set delete clear
  perform_all-lookups [] c = refl
  perform_all-lookups (gets now q ∷ xs) c =
      perform_all-lookups xs (get b hash is_true now q c).0
      ∙ ap (λ (n : ℕ). lookups n xs)
          (count_total (b.get now (make_key b hash is_true q) c.backend).1
            (record c { backend = (b.get now (make_key b hash is_true q) c.backend).0 }))
  perform_all-lookups (sets now later q v ttl ∷ xs) c =
      perform_all-lookups xs (set b hash is_true now later q v ttl c)
  perform_all-lookups (deletes q ∷ xs) c = perform_all-lookups xs (delete b hash is_true q c)
  perform_all-lookups (clears ∷ xs) c = perform_all-lookups xs (clear b hash is_true c)
