-- ===== src/Prelude/Names.antt =====
-- Lists of names: membership, and a list without one of its names.
use Prim.Native.Nat.{ℕ, zero, suc, ◌<◌}
use native.Mathlib.Omega.{arith}
use Prim.Native.String.{String}
use mathlib.Core.Bool.{Bool, true, false, not, false≢true}
use mathlib.Core.Logic.{inl, inr}
use mathlib.Core.List.{List, [], ◌∷◌, Perm}
use mathlib.Core.List.Perm
use mathlib.Core.Option.{some, some-injective, none-ne-some}
use mathlib.Core.Path.{◌≡◌, refl, sym, ap, ◌∙◌, subst}
use core_ai_protocol_suite.Prelude.Tests.{Bool-cases}
use core_ai_protocol_suite.Prelude.Texts.{String-discrete}
use core_ai_protocol_suite.Prelude.Lists.{All, keep, get_elem?, length}

truth {ℓ} : {P : Type ℓ} → Dec P → Bool
truth (yes _) = true
truth (no _) = false

truth_sound {ℓ} : {P : Type ℓ} (d : Dec P) → truth d ≡ true → P
unfolding truth
truth_sound (yes p) h = p
truth_sound (no n) h = absurd (false≢true h)

truth_complete {ℓ} : {P : Type ℓ} (d : Dec P) → P → truth d ≡ true
unfolding truth
truth_complete (yes _) p = refl
truth_complete (no n) p = absurd (n p)

-- `a == b`
unfoldable pub same : String → String → Bool
unfolding truth
same a b = truth (String-discrete a b)

pub same_sound : (a b : String) → same a b ≡ true → a ≡ b
unfolding same
same_sound a b = truth_sound (String-discrete a b)

pub same_self : (a : String) → same a a ≡ true
unfolding same
same_self a = truth_complete (String-discrete a a) refl

-- `a in xs`
abbrev pub contains : String → List String → Bool
contains a [] = false
contains a (x ∷ xs) = elim (same x a) [ true ↦ true | false ↦ contains a xs ]

-- `[x for x in xs if x != a]`
abbrev pub without : String → List String → List String
without a = keep (λ x. not (same x a))

abbrev pub IsDistinct : List String → Type 0
IsDistinct [] = Unit
IsDistinct (x ∷ xs) = (contains x xs ≡ false) × IsDistinct xs

pub without_absent : (a : String) (xs : List String) → contains a xs ≡ false → without a xs ≡ xs
without_absent a [] h = refl
without_absent a (x ∷ xs) h = elim (Bool-cases (same x a)) [
  | inl s ↦ absurd (false≢true (sym h ∙ (rw (s, contains) refl)))
  | inr s ↦
      rw (s, keep)
        (ap (λ (l : List String). x ∷ l) (without_absent a xs (sym (rw (s, contains) refl) ∙ h)))
]

pub without-perm :
    (a : String) (xs : List String)
    → IsDistinct xs
    → contains a xs ≡ true
    → Perm (a ∷ without a xs) xs
without-perm a [] d h = absurd (false≢true h)
without-perm a (x ∷ xs) d h = elim (Bool-cases (same x a)) [
  | inl s ↦
      let e = same_sound x a s in
      rw (s, keep)
        (rw (without_absent a xs (subst (λ (z : String). contains z xs ≡ false) e d.0))
          (subst (λ (z : String). Perm (a ∷ xs) (z ∷ xs)) (sym e) (Perm.refl (a ∷ xs))))
  | inr s ↦
      rw (s, keep)
        (Perm.trans (Perm.swap x a (without a xs))
          (Perm.cons x (without-perm a xs d.1 (sym (rw (s, contains) refl) ∙ h))))
]

pub All-contains :
    (P : String → Type 0) (a : String) (xs : List String) → All P xs → contains a xs ≡ true → P a
All-contains P a [] u h = absurd (false≢true h)
All-contains P a (x ∷ xs) u h = elim (Bool-cases (same x a)) [
  | inl s ↦ subst P (same_sound x a s) u.0
  | inr s ↦ All-contains P a xs u.1 (sym (rw (s, contains) refl) ∙ h)
]

pub get_elem?-contains :
    (i : ℕ) (xs : List String) (a : String) → get_elem? xs i ≡ some a → contains a xs ≡ true
get_elem?-contains i [] a h = absurd (none-ne-some _ h)
get_elem?-contains zero (x ∷ xs) a h =
    rw
      (subst (λ (z : String). same z a ≡ true) (sym (some-injective _ _ h)) (same_self a), contains)
      refl
get_elem?-contains (suc i) (x ∷ xs) a h = elim (Bool-cases (same x a)) [
  | inl s ↦ rw (s, contains) refl
  | inr s ↦ rw (s, contains) (get_elem?-contains i xs a h)
]

pub get_elem?-some :
    {A : Type 0} (i : ℕ) (xs : List A) → i < length xs → (a : A) × (get_elem? xs i ≡ some a)
get_elem?-some i [] h = absurd (omega (arith, h))
get_elem?-some zero (x ∷ xs) h = (x, refl)
get_elem?-some (suc i) (x ∷ xs) h = get_elem?-some i xs (omega (arith, h))

keep_absent :
    (p : String → Bool) (a : String) (xs : List String)
    → contains a xs ≡ false
    → contains a (keep p xs) ≡ false
keep_absent p a [] h = refl
keep_absent p a (x ∷ xs) h = elim (Bool-cases (same x a)) [
  | inl s ↦ absurd (false≢true (sym h ∙ rw (s, contains) refl))
  | inr s ↦
      let rest = keep_absent p a xs (sym (rw (s, contains) refl) ∙ h) in
      elim (Bool-cases (p x)) [
        | inl t ↦ rw (t, keep) (rw (s, contains) rest)
        | inr t ↦ rw (t, keep) rest
      ]
]

pub keep-IsDistinct :
    (p : String → Bool) (xs : List String) → IsDistinct xs → IsDistinct (keep p xs)
keep-IsDistinct p [] d = tt
keep-IsDistinct p (x ∷ xs) d = elim (Bool-cases (p x)) [
  | inl h ↦ rw (h, keep, IsDistinct) (keep_absent p x xs d.0, keep-IsDistinct p xs d.1)
  | inr h ↦ rw (h, keep) (keep-IsDistinct p xs d.1)
]
