-- ===== src/Prelude/Sorts.antt =====
-- Python's `sorted(xs, key=...)`, which is stable, and the rearrangements of lists.
use Prim.Native.Nat.{ℕ, zero, suc, ◌≤◌}
use mathlib.Core.Bool.{Bool, true, false, not}
use mathlib.Core.Logic.{inl, inr}
use mathlib.Core.List.{List, [], ◌∷◌, ◌++◌, Perm, perm_append_comm, perm_middle}
use mathlib.Core.List.Perm
use mathlib.Core.Path.{◌≡◌, refl, ap}
use native.Mathlib.Omega.{arith}
use core_ai_protocol_suite.Prelude.Tests.{leb, Bool-cases}
use core_ai_protocol_suite.Prelude.Lists.{All, keep, take, drop}

module _ {A : Type 0} (key : A → ℕ) where
  abbrev pub insert_by : A → List A → List A
  insert_by x [] = x ∷ []
  insert_by x (y ∷ ys) =
      let rest = insert_by x ys in
      elim (leb (key x) (key y)) [ true ↦ x ∷ y ∷ ys | false ↦ y ∷ rest ]

  abbrev pub sort_by : List A → List A
  sort_by [] = []
  sort_by (x ∷ xs) = insert_by x (sort_by xs)

  insert_by-perm : (x : A) (ys : List A) → Perm (insert_by x ys) (x ∷ ys)
  insert_by-perm x [] = Perm.refl (x ∷ [])
  insert_by-perm x (y ∷ ys) = elim (Bool-cases (leb (key x) (key y))) [
    | inl h ↦ rw (h, insert_by) (Perm.refl (x ∷ y ∷ ys))
    | inr h ↦ rw (h, insert_by) (Perm.trans (Perm.cons y (insert_by-perm x ys)) (Perm.swap x y ys))
  ]

  pub sort_by-perm : (xs : List A) → Perm (sort_by xs) xs
  sort_by-perm [] = Perm.refl []
  sort_by-perm (x ∷ xs) = Perm.trans (insert_by-perm x (sort_by xs)) (Perm.cons x (sort_by-perm xs))

  -- Each key is at most all that follow.
  abbrev pub IsSorted : List A → Type 0
  IsSorted [] = Unit
  IsSorted (x ∷ xs) = All (λ y. key x ≤ key y) xs × IsSorted xs

  All-insert_by : (P : A → Type 0) (x : A) (ys : List A) → P x → All P ys → All P (insert_by x ys)
  All-insert_by P x [] u v = (u, tt)
  All-insert_by P x (y ∷ ys) u v = elim (Bool-cases (leb (key x) (key y))) [
    | inl h ↦ rw (h, insert_by, All) (u, v)
    | inr h ↦ rw (h, insert_by, All) (v.0, All-insert_by P x ys u v.1)
  ]

  pub All-sort_by : (P : A → Type 0) (xs : List A) → All P xs → All P (sort_by xs)
  All-sort_by P [] u = tt
  All-sort_by P (x ∷ xs) u = All-insert_by P x (sort_by xs) u.0 (All-sort_by P xs u.1)

  at_most : (m n : ℕ) (ys : List A) → m ≤ n → All (λ y. n ≤ key y) ys → All (λ y. m ≤ key y) ys
  at_most m n [] l u = tt
  at_most m n (y ∷ ys) l u = (omega (arith, u.0), at_most m n ys l u.1)

  insert_by-IsSorted : (x : A) (ys : List A) → IsSorted ys → IsSorted (insert_by x ys)
  insert_by-IsSorted x [] u = (tt, tt)
  insert_by-IsSorted x (y ∷ ys) u = elim (Bool-cases (leb (key x) (key y))) [
    | inl h ↦
        let l : key x ≤ key y = ground arith in
        rw (h, insert_by, IsSorted) ((l, at_most (key x) (key y) ys l u.0), u)
    | inr h ↦
        let l : key y ≤ key x = ground arith in
        rw (h, insert_by, IsSorted)
          (All-insert_by (λ z. key y ≤ key z) x ys l u.0, insert_by-IsSorted x ys u.1)
  ]

  pub sort_by-IsSorted : (xs : List A) → IsSorted (sort_by xs)
  sort_by-IsSorted [] = tt
  sort_by-IsSorted (x ∷ xs) = insert_by-IsSorted x (sort_by xs) (sort_by-IsSorted xs)

module _ {ℓ} {A : Type ℓ} where
  -- Those that pass first, and the others: a stable partition.
  pub keep-perm : (p : A → Bool) (xs : List A) → Perm (keep p xs ++ keep (λ x. not (p x)) xs) xs
  keep-perm p [] = Perm.refl []
  keep-perm p (x ∷ xs) = elim (Bool-cases (p x)) [
    | inl h ↦ rw (h, keep, ◌++◌) (Perm.cons x (keep-perm p xs))
    | inr h ↦
        rw (h, keep, ◌++◌)
          (Perm.trans (perm_middle (keep p xs) (keep (λ z. not (p z)) xs))
            (Perm.cons x (keep-perm p xs)))
  ]

  pub take-append-drop : (n : ℕ) (xs : List A) → take n xs ++ drop n xs ≡ xs
  take-append-drop zero xs = refl
  take-append-drop (suc n) [] = refl
  take-append-drop (suc n) (x ∷ xs) = ap (λ (l : List A). x ∷ l) (take-append-drop n xs)

  -- `xs[k:] + xs[:k]`
  pub rotate-perm : (n : ℕ) (xs : List A) → Perm (drop n xs ++ take n xs) xs
  rotate-perm n xs =
      Perm.trans (perm_append_comm (drop n xs) (take n xs))
        (rw (take-append-drop n xs) (Perm.refl xs))
