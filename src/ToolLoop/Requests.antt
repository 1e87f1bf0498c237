-- ===== src/ToolLoop/Requests.antt =====
-- What a tool loop sends to the model (tools/executor.py, with providers/base.py).
use mathlib.Core.List.{append-nil, append_assoc}
use mathlib.Core.Bool.{true≢false}
use text.Mathlib.Text.{◌==◌ as str_eq}
use core_ai_protocol_suite.Prelude.{
  ℕ, zero, suc, ◌+◌, ◌≤◌, ◌≡◌, refl, sym, ap, ◌∙◌, inl, inr, true, false, Option, none, some, List,
  [], ◌∷◌, ◌++◌, length, leb, All, Bool-cases, Option-cases, List-cases, arith,
}
use core_ai_protocol_suite.Conversation.{
  ToolCall, Message, tool, is_known, is_named, can_end, names_call, every, spoken, last_of,
  validate_conversation,
}
use core_ai_protocol_suite.Conversation.Appending.{CanFollow, validate-append}
use core_ai_protocol_suite.ToolLoop.{
  Response, Env, Grant, World, LoopState, asks, answers, is_approval_required, reaches, run_one,
  run_calls, step_of, bad_arguments, count_response, stop_for, rounds, run_tool_loop, start,
}

-- Messages that answer calls which have an id.
abbrev AreAnswers : List Message → Type 0
AreAnswers [] = Unit
AreAnswers (m ∷ ms) = (m.role ≡ tool) × (names_call m.tool_call_id ≡ true) × AreAnswers ms

AreAnswers-known : (ms : List Message) → AreAnswers ms → every is_known ms ≡ true
AreAnswers-known [] a = refl
AreAnswers-known (m ∷ ms) a = ground (arith, AreAnswers-known ms a.2, a.0)

AreAnswers-named : (ms : List Message) → AreAnswers ms → every is_named ms ≡ true
AreAnswers-named [] a = refl
AreAnswers-named (m ∷ ms) a = ground (arith, AreAnswers-named ms a.2, a.0, a.1)

AreAnswers-spoken : (ms : List Message) → AreAnswers ms → spoken ms ≡ ms
unfolding spoken
AreAnswers-spoken [] a = refl
AreAnswers-spoken (m ∷ ms) a = ground (arith, AreAnswers-spoken ms a.2, a.0)

AreAnswers-ends :
    (m : Message) (ms : List Message) → AreAnswers (m ∷ ms) → can_end (last_of m ms) ≡ true
unfolding last_of
AreAnswers-ends m [] a = ground (arith, a.0)
AreAnswers-ends m (n ∷ ms) a = AreAnswers-ends n ms a.2

-- A response that calls tools, and its answers, may follow any conversation.
asks-CanFollow :
    (resp : Response) (m : Message) (ms : List Message)
    → AreAnswers (m ∷ ms)
    → CanFollow (asks resp) (m ∷ ms)
unfolding spoken last_of
asks-CanFollow resp m ms a = record {
  known = AreAnswers-known (m ∷ ms) a;
  spoken_all = ap (λ (l : List Message). asks resp ∷ l) (AreAnswers-spoken (m ∷ ms) a);
  named = AreAnswers-named (m ∷ ms) a;
  ends = AreAnswers-ends m ms a;
}

-- The call has an id.
abbrev pub HasId : ToolCall → Type 0
HasId c = str_eq c.id "" ≡ false

module _ {Args S : Type 0} (env : Env Args S) (g : Grant) where
  run_one-id : (c : ToolCall) (w : World Args S) → (run_one env g c w).1.call_id ≡ c.id
  unfolding run_one bad_arguments step_of
  run_one-id c w = ground arith

  -- The inner loop, if it runs to its end, appends one answer for each call, and sends nothing.
  run_calls-answers :
      (cs : List ToolCall) (st : LoopState Args) (w : World Args S)
      → All HasId cs
      → ((run_calls env g cs st w).1.sent ≡ st.sent)
        × ((run_calls env g cs st w).2 ≡ false
            → (ms : List Message) × ((run_calls env g cs st w).1.messages ≡ st.messages ++ ms)
              × AreAnswers ms
              × (length ms ≡ length cs))
  unfolding run_calls
  run_calls-answers [] st w ids = (refl, λ h. ([], sym (append-nil st.messages), tt, refl))
  run_calls-answers (c ∷ cs) st w ids =
      let r = run_one env g c w in
      elim (Bool-cases (is_approval_required r.1.error_code)) [
        | inl h ↦ rw (h, run_calls) (refl, λ k. absurd (true≢false k))
        | inr h ↦
            let rest = run_calls-answers cs _ r.0 ids.1 in
            rw (h, run_calls)
              (
                rest.0,
                λ k.
                    let (ms, e, a, n) = rest.1 k in
                    (
                      answers r.1 ∷ ms,
                      e ∙ append_assoc st.messages (answers r.1 ∷ []) ms,
                      (refl, ground (arith, run_one-id c w, ids.0), a),
                      omega (arith, n),
                    ),
              )
      ]

  abbrev pub IsValidRequest : List Message → Type 0
  IsValidRequest ms = validate_conversation ms ≡ none

  -- Every call that the model makes has an id.
  abbrev pub ModelNamesCalls : Type 0
  ModelNamesCalls = (i : ℕ) (r : Response) → env.model i ≡ some r → All HasId r.tool_calls

  -- All that was sent is valid, and at most so many requests were.
  abbrev pub SentWell : ℕ → List (List Message) → Type 0
  SentWell n sent = All IsValidRequest sent × (length sent ≤ n)

  after_calls :
      (c : ToolCall) (cs : List ToolCall) (resp : Response) (st : LoopState Args) (w : World Args S)
      → All HasId (c ∷ cs)
      → IsValidRequest st.messages
      → (run_calls env g (c ∷ cs) (record st { messages = st.messages ++ (asks resp ∷ []) }) w).2
        ≡ false
      → IsValidRequest
          (run_calls env g
            (c ∷ cs)
            (record st { messages = st.messages ++ (asks resp ∷ []) })
            w).1.messages
  after_calls c cs resp st w ids v k =
      let (ms, e, a, n) =
        (run_calls-answers (c ∷ cs) (record st { messages = st.messages ++ (asks resp ∷ []) }) w
            ids).1
          k in
      elim (List-cases ms) [
        | inl h ↦ absurd (no_answers ms (c ∷ cs) c cs h n refl)
        | inr (m, rest, h) ↦
            rw (e, append_assoc st.messages (asks resp ∷ []) ms, h)
              (validate-append st.messages (asks resp) (m ∷ rest) v
                (asks-CanFollow resp m rest (rw h at a)))
      ]
    where
      no_answers :
          (ms : List Message) (ds : List ToolCall) (c : ToolCall) (cs : List ToolCall)
          → ms ≡ []
          → length ms ≡ length ds
          → ds ≡ c ∷ cs
          → ⊥
      no_answers ms ds c cs h n d = zero_or_more (rw (h, d) at n)
        where
          zero_or_more : 0 ≡ suc (length cs) → ⊥
          zero_or_more e = omega arith

  rounds-SentWell :
      (limit : ℕ) (max_cost : Option ℕ) (n i bound : ℕ) (st : LoopState Args) (w : World Args S)
      → ModelNamesCalls
      → IsValidRequest st.messages
      → SentWell bound st.sent
      → SentWell (bound + n) (rounds env g limit max_cost n i st w).1.sent
  unfolding rounds stop_for count_response
  rounds-SentWell limit max_cost zero i bound st w ids v s = (s.0, omega (arith, s.1))
  rounds-SentWell limit max_cost (suc n) i bound st w ids v s =
      let sent_one : SentWell (bound + suc n) (st.messages ∷ st.sent) =
        ((v, s.0), omega (arith, s.1)) in
      elim (Option-cases (env.model i)) [
        | inl h ↦ rw (h, rounds) sent_one
        | inr (resp, h) ↦
            let counted = count_response env g resp st in
            elim (List-cases resp.tool_calls) [
              | inl e ↦ rw (h, e, rounds) sent_one
              | inr (c, cs, e) ↦ elim (Bool-cases (leb limit (length counted.result.steps))) [
                | inl l ↦ rw (h, e, l, rounds) sent_one
                | inr l ↦ elim (Bool-cases (reaches max_cost counted.result.total_cost)) [
                  | inl m ↦ rw (h, e, l, m, rounds) sent_one
                  | inr m ↦
                      let named : All HasId (c ∷ cs) = rw e at (ids i resp h) in
                      let asked = record counted {
                        messages = counted.messages ++ (asks resp ∷ []);
                      } in
                      let r = run_calls env g (c ∷ cs) asked w in
                      let same_sent : r.1.sent ≡ st.messages ∷ st.sent =
                        (run_calls-answers (c ∷ cs) asked w named).0 in
                      elim (Bool-cases r.2) [
                        | inl k ↦ rw (h, e, l, m, k, rounds) (rw same_sent sent_one)
                        | inr k ↦
                            rw (h, e, l, m, k, rounds)
                              (more bound n _ (
                                rounds-SentWell limit max_cost n (i + 1) (bound + 1) r.1 r.0 ids
                                  (after_calls c cs resp counted w named v k)
                                  (rw same_sent ((v, s.0), omega (arith, s.1)))))
                      ]
                ]
              ]
            ]
      ]
    where
      more :
          (bound n : ℕ) (sent : List (List Message))
          → SentWell (bound + 1 + n) sent
          → SentWell (bound + suc n) sent
      more bound n sent s = (s.0, omega (arith, s.1))

-- If the first conversation is valid and the model gives every tool call an id, then every request
-- that the loop sends to the model is a valid conversation, whatever the tools do, and it sends at
-- most max_steps + 1 of them.
pub run_tool_loop-SentWell :
    {Args S : Type 0} (env : Env Args S) (g : Grant) (limit : ℕ) (max_cost : Option ℕ)
    (messages : List Message) (w : World Args S)
    → ModelNamesCalls env g
    → IsValidRequest env g messages
    → SentWell env g (limit + 1) (run_tool_loop env g limit max_cost messages w).1.sent
unfolding run_tool_loop start
run_tool_loop-SentWell env g limit max_cost messages w ids v =
    let all =
      rounds-SentWell env g limit max_cost (limit + 1) 0 0 (start messages) w ids v
        (tt, omega arith) in
    (all.0, omega (arith, all.1))
