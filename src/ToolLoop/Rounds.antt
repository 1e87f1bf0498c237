-- ===== src/ToolLoop/Rounds.antt =====
-- Induction over the rounds of a tool loop (tools/executor.py, run_tool_loop).
use core_ai_protocol_suite.Prelude.{
  ℕ, zero, suc, ◌+◌, ◌++◌, inl, inr, Option, List, [], ◌∷◌, length, leb, Bool-cases, Option-cases,
  List-cases,
}
use core_ai_protocol_suite.Conversation.{ToolCall}
use core_ai_protocol_suite.ToolLoop.{
  Env, Grant, World, LoopState, asks, reaches, run_calls, count_response, rounds,
}

-- What holds between the worlds before and after the calls of any response holds between those
-- before and after all rounds, if it is reflexive and transitive.
module _ {Args S : Type 0} (env : Env Args S) (g : Grant) (P : World Args S → World Args S → Type 0)
    (same : (w : World Args S) → P w w) (chain : (w v u : World Args S) → P w v → P v u → P w u)
    (calls : (cs : List ToolCall) (st : LoopState Args) (w : World Args S)
      → P w (run_calls env g cs st w).0) where
  pub rounds_induction :
      (limit : ℕ) (max_cost : Option ℕ) (n i : ℕ) (st : LoopState Args) (w : World Args S)
      → P w (rounds env g limit max_cost n i st w).0
  unfolding rounds
  rounds_induction limit max_cost zero i st w = same w
  rounds_induction limit max_cost (suc n) i st w = elim (Option-cases (env.model i)) [
    | inl h ↦ rw (h, rounds) (same w)
    | inr (resp, h) ↦
        let counted = count_response env g resp st in
        elim (List-cases resp.tool_calls) [
          | inl e ↦ rw (h, e, rounds) (same w)
          | inr (c, cs, e) ↦ elim (Bool-cases (leb limit (length counted.result.steps))) [
            | inl l ↦ rw (h, e, l, rounds) (same w)
            | inr l ↦ elim (Bool-cases (reaches max_cost counted.result.total_cost)) [
              | inl m ↦ rw (h, e, l, m, rounds) (same w)
              | inr m ↦
                  let asked = record counted { messages = counted.messages ++ (asks resp ∷ []) } in
                  let r = run_calls env g (c ∷ cs) asked w in
                  let u = calls (c ∷ cs) asked w in
                  elim (Bool-cases r.2) [
                    | inl k ↦ rw (h, e, l, m, k, rounds) u
                    | inr k ↦
                        rw (h, e, l, m, k, rounds)
                          (chain w r.0 _ u (rounds_induction limit max_cost n (i + 1) r.1 r.0))
                  ]
            ]
          ]
        ]
  ]
