-- ===== src/Harness/Workflow/Parse/Ids.antt =====
-- The ids of the steps that are accepted (harness/workflow.py, parse_steps).
use mathlib.Core.Path.{subst}
use mathlib.Core.Bool.{true≢false}
use text.Mathlib.Text.{◌==◌ as str_eq}
use core_ai_protocol_suite.Prelude.{
  List-cases, length, arith, same_self, same_sound, ◌⊎◌, ℕ, suc, String, Bool, true, false, ◌||◌,
  ◌≡◌, refl, sym, ap, ◌∙◌, ◌≢◌, Option, none, some, List, [], ◌∷◌, map, contains, same, IsDistinct,
  All, All-map, Bool-cases, inl, inr,
}
use core_ai_protocol_suite.Harness.Workflow.{Kind, Step, or_empty}
use core_ai_protocol_suite.Harness.Workflow.Parse.{
  bad_id, Entry, Fault, bad, kind_of, step_from, noted, with_step, parse_from, Parsed, parsed,
  invalid, parsed_from, parse_steps,
}

abbrev id_of : Step → String
id_of st = st.id

-- The steps that an entry and what follows it give, where nothing is at fault.
abbrev Good : List String → List Step × List Fault → Type 0
Good seen r = All (λ st. bad st.id seen ≡ false) r.0 × IsDistinct (map id_of r.0)

or_parts : (p q s : Bool) → (p || q || s) ≡ false → (p ≡ false) × (q ≡ false) × (s ≡ false)
or_parts false false false h = (refl, refl, refl)
or_parts false false true h = absurd (true≢false h)
or_parts false true s h = absurd (true≢false h)
or_parts true q s h = absurd (true≢false h)

or_join : (p q s : Bool) → p ≡ false → q ≡ false → s ≡ false → (p || q || s) ≡ false
or_join p q s u v w = rw (u, v, w) refl

contains_parts :
    (a x : String) (xs : List String)
    → contains a (x ∷ xs) ≡ false
    → (same x a ≡ false) × (contains a xs ≡ false)
contains_parts a x xs h = elim (Bool-cases (same x a)) [
  | inl s ↦ absurd (true≢false (sym (rw (s, contains) refl) ∙ h))
  | inr s ↦ (s, sym (rw (s, contains) refl) ∙ h)
]

same_turned : (a b : String) → same a b ≡ false → same b a ≡ false
same_turned a b h = elim (Bool-cases (same b a)) [
  | inl s ↦ absurd (
      true≢false
        (sym (subst (λ (z : String). same a z ≡ true) (sym (same_sound b a s)) (same_self a)) ∙ h))
  | inr s ↦ s
]

-- An id that is good after another is good before it, and is another id.
bad_parts :
    (a x : String) (seen : List String)
    → bad a (x ∷ seen) ≡ false
    → (bad a seen ≡ false) × (same a x ≡ false)
unfolding bad
bad_parts a x seen h =
    let (p, q, s) = or_parts (str_eq a "") (contains a (x ∷ seen)) (str_eq a "input") h in
    let (other, rest) = contains_parts a x seen q in
    (or_join (str_eq a "") (contains a seen) (str_eq a "input") p rest s, same_turned x a other)

unseen :
    (x : String) (seen : List String) (steps : List Step)
    → All (λ st. bad st.id (x ∷ seen) ≡ false) steps
    → contains x (map id_of steps) ≡ false
unseen x seen [] u = refl
unseen x seen (st ∷ steps) u =
    rw ((bad_parts st.id x seen u.0).1, contains) (unseen x seen steps u.1)

not_empty : {A : Type 0} (x : A) (xs : List A) → ¬ (x ∷ xs ≡ [])
not_empty x xs e = let n = ap length e in absurd (omega (arith, n))

step-Good :
    (d : Entry) (id : String) (i : ℕ) (seen : List String) (k : Option Kind) (b : Bool)
    (steps : List Step) (faults : List Fault)
    → bad id seen ≡ b
    → Good (id ∷ seen) (steps, faults) ⊎ (faults ≢ [])
    → noted b (bad_id i) (with_step d id i k (steps, faults)).1 ≡ []
    → Good seen (with_step d id i k (steps, faults))
unfolding with_step noted step_from
step-Good d id i seen none true steps faults h u e = absurd (not_empty _ _ e)
step-Good d id i seen none false steps faults h u e = absurd (not_empty _ _ e)
step-Good d id i seen (some kind) true steps faults h u e = absurd (not_empty _ _ e)
step-Good d id i seen (some kind) false steps faults h (inr n) e = absurd (n e)
step-Good d id i seen (some kind) false steps faults h (inl u) e = (
  (
    h,
    All-map (λ st. bad st.id (id ∷ seen) ≡ false) (λ st. bad st.id seen ≡ false)
        (λ st v. (bad_parts st.id id seen v).0) steps u.0,
  ),
  (unseen id seen steps u.0, u.1),
)

parse_from-Good :
    (i : ℕ) (seen : List String) (ds : List Entry)
    → (parse_from i seen ds).1 ≡ []
    → Good seen (parse_from i seen ds)
unfolding parse_from
parse_from-Good i seen [] e = (tt, tt)
parse_from-Good i seen (d ∷ ds) e =
    let id = or_empty d.id in
    let rest = parse_from (suc i) (id ∷ seen) ds in
    step-Good d id i seen (kind_of d.tool d.prompt) (bad id seen) rest.0 rest.1 refl
      (elim (List-cases rest.1) [
        | inl f ↦ inl (parse_from-Good (suc i) (id ∷ seen) ds f)
        | inr (x, xs, f) ↦ inr (λ g. not_empty x xs (sym f ∙ g))
      ])
      e

-- Accepted: there is a step, every id is neither empty nor reserved, and no two are the same.
abbrev pub IsAccepted : Parsed → Type 0
IsAccepted (invalid faults) = faults ≢ []
IsAccepted (parsed steps) =
    (steps ≢ [])
    × All (λ st. (str_eq st.id "" ≡ false) × (str_eq st.id "input" ≡ false)) steps
    × IsDistinct (map id_of steps)

plain :
    (steps : List Step)
    → All (λ st. bad st.id [] ≡ false) steps
    → All (λ st. (str_eq st.id "" ≡ false) × (str_eq st.id "input" ≡ false)) steps
unfolding bad
plain steps u =
    All-map (λ st. bad st.id [] ≡ false)
      (λ st. (str_eq st.id "" ≡ false) × (str_eq st.id "input" ≡ false))
      (λ st v. let (p, q, s) = or_parts (str_eq st.id "") false (str_eq st.id "input") v in (p, s))
      steps u

parsed_from-IsAccepted :
    (r : List Step × List Fault) → Good [] r ⊎ (r.1 ≢ []) → IsAccepted (parsed_from r)
unfolding parsed_from
parsed_from-IsAccepted ([], []) u = not_empty _ _
parsed_from-IsAccepted ([], f ∷ fs) u = not_empty _ _
parsed_from-IsAccepted (st ∷ steps, f ∷ fs) u = not_empty _ _
parsed_from-IsAccepted (st ∷ steps, []) (inr n) = absurd (n refl)
parsed_from-IsAccepted (st ∷ steps, []) (inl u) = (not_empty _ _, plain (st ∷ steps) u.0, u.1)

-- A configuration is accepted with at least one step, of which no two have the same id and none has
-- an empty or the reserved one, or it is refused with at least one fault.
pub parse_steps-IsAccepted : (ds : List Entry) → IsAccepted (parse_steps ds)
unfolding parse_steps
parse_steps-IsAccepted ds =
    parsed_from-IsAccepted (parse_from 0 [] ds) (elim (List-cases (parse_from 0 [] ds).1) [
      | inl f ↦ inl (parse_from-Good 0 [] ds f)
      | inr (x, xs, f) ↦ inr (λ g. not_empty x xs (sym f ∙ g))
    ])
