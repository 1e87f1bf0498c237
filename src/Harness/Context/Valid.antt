-- ===== src/Harness/Context/Valid.antt =====
-- Compaction and the validity of a conversation (harness/context.py, with providers/base.py).
use mathlib.Core.List.{append_assoc}
use core_ai_protocol_suite.Prelude.{
  ℕ, zero, suc, ◌-◌, ◌≡◌, refl, sym, ap, ◌∙◌, inl, inr, String, Bool, true, false, none, List, [],
  ◌∷◌, ◌++◌, length, leb, arith, Bool-cases,
}
use core_ai_protocol_suite.Conversation.{
  Message, user, is_system, is_known, can_end, is_named, every, spoken, last_of, check_spoken,
  validate_conversation,
}
use core_ai_protocol_suite.Harness.Context.{
  Measure, is_tool, user_says, gather, turns_of, turns, flat, shrink, drop_turns, pop_tools,
  with_note, condense, compact,
}

-- Whether the last message that is no system message may end a conversation, where `b` says so of
-- what came before.
unfoldable pub ends_well : Bool → List Message → Bool
ends_well b [] = b
ends_well b (m ∷ ms) = elim (is_system m) [
  | true ↦ ends_well b ms
  | false ↦ ends_well (can_end m) ms
]

-- What may follow the task of a valid conversation.
pub record IsTail (ms : List Message) : Type 0 where
  pub known : every is_known ms ≡ true
  pub named : every is_named ms ≡ true
  pub ends : ends_well true ms ≡ true

last-ends :
    (m : Message) (ms : List Message) → can_end (last_of m (spoken ms)) ≡ ends_well (can_end m) ms
unfolding spoken last_of ends_well
last-ends m [] = refl
last-ends m (n ∷ ms) = ground (arith, last-ends m ms, last-ends n ms)

spoken-named : (ms : List Message) → every is_named (spoken ms) ≡ every is_named ms
unfolding spoken
spoken-named [] = refl
spoken-named (m ∷ ms) = ground (arith, spoken-named ms)

-- For a first message of the user, a valid conversation is one whose rest is such a tail.
rest-IsTail :
    (m : Message) (ms : List Message)
    → m.role ≡ user
    → validate_conversation (m ∷ ms) ≡ none
    → IsTail ms
unfolding validate_conversation check_spoken spoken
rest-IsTail m ms u h = ground (arith, last-ends m ms, spoken-named ms)

valid_of :
    (m : Message) (ms : List Message)
    → m.role ≡ user
    → IsTail ms
    → validate_conversation (m ∷ ms) ≡ none
unfolding validate_conversation check_spoken spoken
valid_of m ms u t = ground (arith, last-ends m ms, spoken-named ms)

ends_well_mono : (ms : List Message) → ends_well false ms ≡ true → ends_well true ms ≡ true
unfolding ends_well
ends_well_mono [] h = cc
ends_well_mono (m ∷ ms) h = ground (arith, ends_well_mono ms)

ends_well_any : (b : Bool) (ms : List Message) → ends_well b ms ≡ true → ends_well true ms ≡ true
ends_well_any true ms h = h
ends_well_any false ms h = ends_well_mono ms h

tail_ends :
    (m : Message) (ms : List Message) → ends_well true (m ∷ ms) ≡ true → ends_well true ms ≡ true
unfolding ends_well
tail_ends m ms h = ground (arith, ends_well_any (can_end m) ms)

-- Any end of a tail is a tail.
suffix-IsTail : (xs ys : List Message) → IsTail (xs ++ ys) → IsTail ys
suffix-IsTail [] ys t = t
suffix-IsTail (m ∷ xs) ys t = suffix-IsTail xs ys (record {
  known = ground (arith, t.known);
  named = ground (arith, t.named);
  ends = tail_ends m (xs ++ ys) t.ends;
})

shrink-known :
    (k : Measure) (n : ℕ) (ms : List Message) → every is_known (shrink k n ms) ≡ every is_known ms
unfolding shrink
shrink-known k zero ms = refl
shrink-known k (suc n) [] = refl
shrink-known k (suc n) (m ∷ ms) = ground (arith, shrink-known k n ms)

shrink-named :
    (k : Measure) (n : ℕ) (ms : List Message) → every is_named (shrink k n ms) ≡ every is_named ms
unfolding shrink
shrink-named k zero ms = refl
shrink-named k (suc n) [] = refl
shrink-named k (suc n) (m ∷ ms) = ground (arith, shrink-named k n ms)

shrink-ends :
    (k : Measure) (n : ℕ) (b : Bool) (ms : List Message)
    → ends_well b (shrink k n ms) ≡ ends_well b ms
unfolding shrink ends_well
shrink-ends k zero b ms = refl
shrink-ends k (suc n) b [] = refl
shrink-ends k (suc n) b (m ∷ ms) =
    ground (arith, shrink-ends k n b ms, shrink-ends k n (can_end m) ms)

shrink-IsTail : (k : Measure) (n : ℕ) (ms : List Message) → IsTail ms → IsTail (shrink k n ms)
shrink-IsTail k n ms t = record {
  known = shrink-known k n ms ∙ t.known;
  named = shrink-named k n ms ∙ t.named;
  ends = shrink-ends k n true ms ∙ t.ends;
}

flat-gather : (ms : List Message) → (gather ms).0 ++ flat (gather ms).1 ≡ ms
unfolding gather flat
flat-gather [] = refl
flat-gather (m ∷ ms) = ground (arith, flat-gather ms)

flat-turns_of : (r : List Message × List (List Message)) → flat (turns_of r) ≡ r.0 ++ flat r.1
unfolding turns_of flat
flat-turns_of ([], ts) = refl
flat-turns_of (m ∷ ms, ts) = refl

-- The turns, in order, are the messages.
flat-turns : (ms : List Message) → flat (turns ms) ≡ ms
unfolding turns
flat-turns ms = flat-turns_of (gather ms) ∙ flat-gather ms

drop_turns-flat :
    (k : Measure) (pinned : List Message) (ts : List (List Message))
    → (drop_turns k pinned ts).0 ++ flat (drop_turns k pinned ts).1 ≡ flat ts
unfolding drop_turns flat
drop_turns-flat k pinned [] = refl
drop_turns-flat k pinned (t ∷ []) = refl
drop_turns-flat k pinned (t ∷ u ∷ ts) = ground (
  arith,
  drop_turns-flat k pinned (u ∷ ts),
  append_assoc t (drop_turns k pinned (u ∷ ts)).0 (flat (drop_turns k pinned (u ∷ ts)).1),
)

-- `pop_tools` leaves an end of the list.
pop_tools-suffix : (ms : List Message) → (xs : List Message) × (xs ++ pop_tools ms ≡ ms)
unfolding pop_tools
pop_tools-suffix [] = ([], refl)
pop_tools-suffix (m ∷ ms) = elim (Bool-cases (is_tool m)) [
  | inl h ↦ let (xs, e) = pop_tools-suffix ms in (m ∷ xs, rw h (ap (λ (l : List Message). m ∷ l) e))
  | inr h ↦ ([], rw h refl)
]

pop_tools-IsTail : (ms : List Message) → IsTail ms → IsTail (pop_tools ms)
pop_tools-IsTail ms t =
    let (xs, e) = pop_tools-suffix ms in suffix-IsTail xs (pop_tools ms) (rw (sym e) at t)

-- The note on what was dropped is a message of the user.
note-IsTail : (text : String) (ms : List Message) → IsTail ms → IsTail (user_says text ∷ ms)
unfolding ends_well
note-IsTail text ms t = record { known = t.known; named = t.named; ends = t.ends }

with_note-IsTail :
    (k : Measure) (r : List Message × List (List Message))
    → IsTail (r.0 ++ flat r.1)
    → IsTail (with_note k r)
unfolding with_note
with_note-IsTail k ([], ts) t = pop_tools-IsTail (flat ts) t
with_note-IsTail k (m ∷ dropped, ts) t =
    pop_tools-IsTail _ (note-IsTail _ (flat ts) (suffix-IsTail (m ∷ dropped) (flat ts) t))

condense-IsTail :
    (k : Measure) (pinned ms : List Message) → IsTail ms → IsTail (condense k pinned ms)
unfolding condense
condense-IsTail k pinned ms t =
    with_note-IsTail k (drop_turns k pinned (turns ms))
      (rw (drop_turns-flat k pinned (turns ms), flat-turns ms) t)

-- Compaction keeps a conversation whose first message is the user's task valid, and keeps that
-- message first: whatever is cut short or dropped, the result still ends with the user or a tool,
-- and every answer of a tool names its call.
pub compact-valid :
    (k : Measure) (m : Message) (ms : List Message)
    → m.role ≡ user
    → validate_conversation (m ∷ ms) ≡ none
    → (validate_conversation (compact k (m ∷ ms)).0 ≡ none)
      × (rest : List Message) × ((compact k (m ∷ ms)).0 ≡ m ∷ rest)
unfolding compact
compact-valid k m ms u h =
    let t = rest-IsTail m ms u h in
    let cut = shrink-IsTail k (length ms - k.keep_recent) ms t in
    let rest = shrink k (length ms - k.keep_recent) ms in
    elim (Bool-cases (leb (k.count (m ∷ ms)) k.max_tokens)) [
      | inl f ↦ rw f (h, ms, refl)
      | inr f ↦ elim (Bool-cases (leb (k.count (m ∷ rest)) k.max_tokens)) [
        | inl s ↦ rw (f, s) (valid_of m rest u cut, rest, refl)
        | inr s ↦
            rw (f, s)
              (
                valid_of m (condense k (m ∷ []) rest) u (condense-IsTail k (m ∷ []) rest cut),
                condense k (m ∷ []) rest,
                refl,
              )
      ]
    ]
