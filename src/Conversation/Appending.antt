-- ===== src/Conversation/Appending.antt =====
-- A conversation that goes on (providers/base.py, validate_conversation).
use core_ai_protocol_suite.Prelude.{
  ◌≡◌, refl, ap, ◌∙◌, Bool, true, none, some, List, [], ◌∷◌, ◌++◌, arith, Bool-cases, inl, inr,
}
use core_ai_protocol_suite.Conversation.{
  Message, is_known, can_end, is_named, every, spoken, last_of, check_spoken, validate_conversation,
  invalid_role,
}

every-append :
    (p : Message → Bool) (xs ys : List Message)
    → every p xs ≡ true
    → every p ys ≡ true
    → every p (xs ++ ys) ≡ true
every-append p [] ys hx hy = hy
every-append p (x ∷ xs) ys hx hy = ground (every-append p xs ys, arith)

-- What may follow: a message that is no system message, known and named, with more of them, the
-- last of which may end a conversation.
pub record CanFollow (n : Message) (ns : List Message) : Type 0 where
  pub known : every is_known (n ∷ ns) ≡ true
  pub spoken_all : spoken (n ∷ ns) ≡ n ∷ ns
  pub named : every is_named (n ∷ ns) ≡ true
  pub ends : can_end (last_of n ns) ≡ true

spoken-append : (xs ys : List Message) → spoken (xs ++ ys) ≡ spoken xs ++ spoken ys
unfolding spoken
spoken-append [] ys = refl
spoken-append (x ∷ xs) ys = ground (arith, spoken-append xs ys)

last_of-append :
    (m : Message) (ms : List Message) (n : Message) (ns : List Message)
    → last_of m (ms ++ (n ∷ ns)) ≡ last_of n ns
unfolding last_of
last_of-append m [] n ns = refl
last_of-append m (k ∷ ms) n ns = last_of-append k ms n ns

check_spoken-append :
    (ms : List Message) (n : Message) (ns : List Message)
    → check_spoken ms ≡ none
    → every is_named (n ∷ ns) ≡ true
    → can_end (last_of n ns) ≡ true
    → check_spoken (ms ++ (n ∷ ns)) ≡ none
unfolding check_spoken
check_spoken-append [] n ns h named ends = cc
check_spoken-append (m ∷ ms) n ns h named ends =
    ground (arith, last_of-append m ms n ns, every-append is_named ms (n ∷ ns))

valid_parts :
    (m : Message) (ms : List Message)
    → validate_conversation (m ∷ ms) ≡ none
    → (every is_known (m ∷ ms) ≡ true) × (check_spoken (spoken (m ∷ ms)) ≡ none)
unfolding validate_conversation
valid_parts m ms h = elim (Bool-cases (every is_known (m ∷ ms))) [
  | inl k ↦ (k, rw k at h)
  | inr k ↦ absurd (none_or_some (rw k at h))
]
  where
    none_or_some : some invalid_role ≡ none → ⊥
    none_or_some e = cc e

from_parts :
    (m : Message) (ms : List Message)
    → every is_known (m ∷ ms) ≡ true
    → check_spoken (spoken (m ∷ ms)) ≡ none
    → validate_conversation (m ∷ ms) ≡ none
unfolding validate_conversation
from_parts m ms k c = rw k c

-- A valid conversation stays valid when such messages are appended.
pub validate-append :
    (ms : List Message) (n : Message) (ns : List Message)
    → validate_conversation ms ≡ none
    → CanFollow n ns
    → validate_conversation (ms ++ (n ∷ ns)) ≡ none
unfolding validate_conversation
validate-append [] n ns h f = cc
validate-append (m ∷ ms) n ns h f =
    let parts = valid_parts m ms h in
    let said : spoken ((m ∷ ms) ++ (n ∷ ns)) ≡ spoken (m ∷ ms) ++ (n ∷ ns) =
      spoken-append (m ∷ ms) (n ∷ ns) ∙ ap (◌++◌ (spoken (m ∷ ms))) f.spoken_all in
    from_parts m (ms ++ (n ∷ ns)) (every-append is_known (m ∷ ms) (n ∷ ns) parts.0 f.known)
      (ap check_spoken said ∙ check_spoken-append (spoken (m ∷ ms)) n ns parts.1 f.named f.ends)
