-- ===== src/Prelude/Texts.antt =====
-- Equality of texts, as a decision.
use mathlib.Core.Bool.{Bool, true, false, false≢true}
use mathlib.Core.Path.{◌≡◌, sym, ap, ◌∙◌}
use text.Mathlib.Text.{◌==◌}
use text.Mathlib.TextEquality.{eq_iff}
use Prim.Native.String.{String}

decide_text : (s t : String) (b : Bool) → (s == t) ≡ b → Dec (s ≡ t)
decide_text s t true h = yes ((eq_iff s t).0 h)
decide_text s t false h = no (λ e. false≢true (sym h ∙ (eq_iff s t).1 e))

unfoldable pub String-discrete : Discrete String
unfolding decide_text
String-discrete s t = decide_text s t (s == t) (λ _. s == t)

-- Equality of pairs of texts, as keys of a dictionary.
unfoldable pub Pair-discrete : Discrete (String × String)
unfolding String-discrete
Pair-discrete (s, t) (u, v) = elim (String-discrete s u) [
  | no n ↦ no (λ e. n (ap (λ (p : String × String). p.0) e))
  | yes e ↦ elim (String-discrete t v) [
    | no n ↦ no (λ f. n (ap (λ (p : String × String). p.1) f))
    | yes f ↦ yes (λ i. (e i, f i))
  ]
]
