-- ===== src/Planning/Select/Rotation.antt =====
-- The rotation of `round_robin` (coreai/router.py, `_select_round_robin`).
use mathlib.Core.List.{Perm}
use mathlib.Core.List.Perm
use mathlib.Core.Path.{subst}
use native.Mathlib.Omega.{arith}
use native.Mathlib.Nat.{mod-lt, mod-add-mod, mod-eq_of_lt, add-mod_right}
use core_ai_protocol_suite.Prelude.{
  ℕ, zero, suc, ◌+◌, ◌-◌, ◌%◌, ◌≤◌, ◌<◌, String, ◌≡◌, refl, sym, ap, ◌∙◌, Option, some, List, [],
  ◌∷◌, ◌++◌, map, length, get_elem?, take, drop, rotate-perm,
}
use core_ai_protocol_suite.Planning.{CompletionRequest, Planner, RoutingStrategy, round_robin}
use core_ai_protocol_suite.Planning.Select.{turn, bump, select_by, select_provider}

-- The providers of a number of selections in a row from the same list.
abbrev pub served : Planner → CompletionRequest → List String → ℕ → List (Option String)
served p r ns zero = []
served p r ns (suc k) = let s = select_provider p r ns in s.1 ∷ served s.0 r ns k

-- The places `i`, `i + 1`, ... of a list, and the same modulo a length.
reads : List String → ℕ → ℕ → List (Option String)
reads xs i zero = []
reads xs i (suc m) = get_elem? xs i ∷ reads xs (suc i) m

turns : List String → ℕ → ℕ → ℕ → List (Option String)
turns xs n c zero = []
turns xs n c (suc m) = get_elem? xs (c % n) ∷ turns xs n (suc c) m

turns-append :
    (xs : List String) (n c a b : ℕ) → turns xs n c (a + b) ≡ turns xs n c a ++ turns xs n (c + a) b
unfolding turns
turns-append xs n c zero b =
    let e : 0 + b ≡ b = omega arith in let f : c + 0 ≡ c = omega arith in rw e (rw f refl)
turns-append xs n c (suc a) b =
    let e : suc a + b ≡ suc (a + b) = omega arith in
    let f : c + suc a ≡ suc c + a = omega arith in
    rw e (
      rw f (
        ap (λ (l : List (Option String)). get_elem? xs (c % n) ∷ l)
          (turns-append xs n (suc c) a b)))

turns-reads :
    (xs : List String) (n c i m : ℕ)
    → ((j : ℕ) → (c + j) % n ≡ (i + j) % n)
    → i + m ≤ n
    → turns xs n c m ≡ reads xs i m
unfolding turns reads
turns-reads xs n c i zero e h = refl
turns-reads xs n c i (suc m) e h =
    let here : c % n ≡ i =
      ap (λ (k : ℕ). k % n) {x = c} {y = c + 0} (omega arith)
      ∙ e 0
      ∙ ap (λ (k : ℕ). k % n) {x = i + 0} {y = i} (omega arith)
      ∙ mod-eq_of_lt (omega (arith, h)) in
    let next = λ (j : ℕ).
      ap (λ (k : ℕ). k % n) {x = suc c + j} {y = c + suc j} (omega arith)
      ∙ e (suc j)
      ∙ ap (λ (k : ℕ). k % n) {x = i + suc j} {y = suc i + j} (omega arith) in
    rw here (
      ap (λ (l : List (Option String)). get_elem? xs i ∷ l)
        (turns-reads xs n (suc c) (suc i) m next (omega (arith, h))))

at_place :
    (xs : List String) (i : ℕ)
    → i < length xs
    → (x : String) × (get_elem? xs i ≡ some x) × (drop i xs ≡ x ∷ drop (suc i) xs)
at_place [] i h = absurd (omega (arith, h))
at_place (x ∷ xs) zero h = (x, refl, refl)
at_place (x ∷ xs) (suc i) h = at_place xs i (omega (arith, h))

reads-take :
    (xs : List String) (i m : ℕ) → i + m ≤ length xs → reads xs i m ≡ map some (take m (drop i xs))
unfolding reads
reads-take xs i zero h = refl
reads-take xs i (suc m) h =
    let (x, e, f) = at_place xs i (omega (arith, h)) in
    rw e (
      rw f (
        ap (λ (l : List (Option String)). some x ∷ l) (reads-take xs (suc i) m (omega (arith, h)))))

drop_all : (xs : List String) (i : ℕ) → i ≡ length xs → drop i xs ≡ []
drop_all [] zero h = refl
drop_all [] (suc i) h = refl
drop_all (x ∷ xs) zero h = absurd (omega (arith, h))
drop_all (x ∷ xs) (suc i) h = drop_all xs i (omega (arith, h))

reads-drop : (xs : List String) (i m : ℕ) → i + m ≡ length xs → reads xs i m ≡ map some (drop i xs)
unfolding reads
reads-drop xs i zero h = rw (drop_all xs i (omega (arith, h))) refl
reads-drop xs i (suc m) h =
    let (x, e, f) = at_place xs i (omega (arith, h)) in
    rw e (
      rw f (
        ap (λ (l : List (Option String)). some x ∷ l) (reads-drop xs (suc i) m (omega (arith, h)))))

map-append : (xs ys : List String) → map some (xs ++ ys) ≡ map some xs ++ map some ys
map-append [] ys = refl
map-append (x ∷ xs) ys = ap (λ (l : List (Option String)). some x ∷ l) (map-append xs ys)

same_turn : (n c k j : ℕ) → k ≡ c % n → (c + j) % n ≡ (k + j) % n
same_turn n c k j e = rw e (sym (mod-add-mod c n j))

wrapped : (n c k j : ℕ) → k ≡ c % n → k < n → (c + (n - k) + j) % n ≡ (0 + j) % n
wrapped n c k j e lt =
    ap (λ (l : ℕ). l % n) {x = c + (n - k) + j} {y = c + ((n - k) + j)} (omega arith)
    ∙ same_turn n c k ((n - k) + j) e
    ∙ ap (λ (l : ℕ). l % n) {x = k + ((n - k) + j)} {y = j + n} (omega (arith, lt))
    ∙ add-mod_right j n
    ∙ ap (λ (l : ℕ). l % n) {x = j} {y = 0 + j} (omega arith)

-- As many turns as there are providers read the list once around.
turns-around :
    (xs : List String) (n c k : ℕ)
    → n ≡ length xs
    → k ≡ c % n
    → k < n
    → turns xs n c n ≡ map some (drop k xs ++ take k xs)
turns-around xs n c k len e lt =
    ap (turns xs n c) {x = n} {y = (n - k) + k} (omega (arith, lt))
    ∙ turns-append xs n c (n - k) k
    ∙ ap (λ (l : List (Option String)). l ++ turns xs n (c + (n - k)) k)
        (turns-reads xs n c k (n - k) (λ j. same_turn n c k j e) (omega (arith, lt))
          ∙ reads-drop xs k (n - k) (omega (arith, lt, len)))
    ∙ ap (λ (l : List (Option String)). map some (drop k xs) ++ l)
        (turns-reads xs n (c + (n - k)) 0 k (λ j. wrapped n c k j e lt) (omega (arith, lt))
          ∙ reads-take xs 0 k (omega (arith, lt, len)))
    ∙ sym (map-append (drop k xs) (take k xs))

rotating :
    (s : RoutingStrategy) (p : Planner) (r : CompletionRequest) (x : String) (xs : List String)
    → s ≡ round_robin
    → select_by s p r x (x ∷ xs) ≡ (bump p, get_elem? (x ∷ xs) (p.rr_index % length (x ∷ xs)))
unfolding select_by turn
rotating s p r x xs e = rw e refl

served-turns :
    (p : Planner) (r : CompletionRequest) (x : String) (xs : List String) (m : ℕ)
    → p.strategy ≡ round_robin
    → served p r (x ∷ xs) m ≡ turns (x ∷ xs) (length (x ∷ xs)) p.rr_index m
unfolding select_provider turns bump
served-turns p r x xs zero e = refl
served-turns p r x xs (suc m) e =
    subst
      (λ (s : Planner × Option String).
        s.1 ∷ served s.0 r (x ∷ xs) m ≡ turns (x ∷ xs) (length (x ∷ xs)) p.rr_index (suc m))
      (sym (rotating p.strategy p r x xs e))
      (ap (λ (l : List (Option String)). get_elem? (x ∷ xs) (p.rr_index % length (x ∷ xs)) ∷ l)
        (served-turns (bump p) r x xs m e))

-- Under `round_robin`, as many calls of `_select_provider` in a row as the list has providers, for
-- that list and with nothing else advancing the rotation between them, select each provider of the
-- list exactly once, wherever the rotation stands.
pub round_robin-fair :
    (p : Planner) (r : CompletionRequest) (x : String) (xs : List String)
    → p.strategy ≡ round_robin
    → Perm (served p r (x ∷ xs) (length (x ∷ xs))) (map some (x ∷ xs))
round_robin-fair p r x xs e =
    let n = length (x ∷ xs) in
    let k = p.rr_index % n in
    rw (served-turns p r x xs n e) (
      rw (turns-around (x ∷ xs) n p.rr_index k refl refl (mod-lt p.rr_index (omega arith)))
        (Perm.map some (rotate-perm k (x ∷ xs))))
