-- ===== src/Harness/Loop/Turns.antt =====
-- Induction over the turns of an execution (harness/runner.py, _execute).
use core_ai_protocol_suite.Prelude.{
  true, false, ℕ, zero, suc, ◌+◌, ◌≡◌, refl, inl, inr, String, Bool, Option, none, some, List, [],
  ◌∷◌, ◌++◌, leb, Bool-cases, Option-cases, List-cases,
}
use core_ai_protocol_suite.Conversation.{ToolCall, Message}
use core_ai_protocol_suite.ToolLoop.{asks}
use core_ai_protocol_suite.Harness.Calls.{run_tools}
use core_ai_protocol_suite.Harness.Context.{dropped, user_says}
use core_ai_protocol_suite.Harness.Store.{Run, Progress, stalled, answered, saved}
use core_ai_protocol_suite.Harness.Runner.{Outside, AgentDef, Authority, State, is_stalled, spend}
use core_ai_protocol_suite.Harness.Loop.{
  summarized, compacted, write, check, asking, counted, loop, make_plan, plan_and_loop, from_plan,
  go_on, closed, broken, cut, waits, planned,
}
use core_ai_protocol_suite.Harness.Loop.Writes.{Answer-cases, Verdict-cases}

-- What is reflexive and transitive and holds of every single step - a write to the row, a look at
-- the limits, a request noted, the tool calls of an answer - holds between the states before and
-- after an execution.
module _ {Args : Type 0} (out : Outside Args) (a : AgentDef) (who : Authority) (id : String)
    (P : State Args → State Args → Type 0) (same : (s : State Args) → P s s)
    (chain : (s t u : State Args) → P s t → P t u → P s u)
    (writes : (f : Run → Run) (s : State Args) → P s (write out a who id f s))
    (checks : (p : Progress) (s : State Args) → P s (check out a who id p s).0)
    (requests : (ms : List Message) (s : State Args) → P s (asking out a who id ms s))
    (calls : (cs : List ToolCall) (ms : List Message) (s : State Args)
      → P s (record s { tools = (run_tools out a who cs none ms s.tools).0 })) where
  -- A step, and a last write.
  closes : (s t : State Args) (f : Run → Run) → P s t → P s (write out a who id f t)
  closes s t f k = chain s t (write out a who id f t) k (writes f t)

  summarized_induction :
      (b : Bool) (ds ms : List Message) (s : State Args) → P s (summarized out a who id b ds ms s).0
  unfolding summarized
  summarized_induction false ds ms s = same s
  summarized_induction true [] ms s = same s
  summarized_induction true (d ∷ ds) ms s =
      let k = requests (user_says (out.summary_prompt (d ∷ ds)) ∷ []) s in
      elim (Answer-cases (out.model s.asked)) [
        | inl (resp, f) ↦ rw (f, summarized) k
        | inr (inl f) ↦ rw (f, summarized) k
        | inr (inr f) ↦ rw (f, summarized) k
      ]

  compacted_induction : (ms : List Message) (s : State Args) → P s (compacted out a who id ms s).0
  unfolding compacted
  compacted_induction ms s = summarized_induction a.summarize (dropped out.measure ms) ms s

  loop_induction :
      (n : ℕ) (ms : List Message) (p : Progress) (s : State Args)
      → P s (loop out a who id n ms p s).0
  unfolding loop
  loop_induction zero ms p s = same s
  loop_induction (suc n) ms p s =
      let v = check out a who id p s in
      let w = compacted out a who id ms v.0 in
      let c = chain s v.0 w.0 (checks p s) (compacted_induction ms v.0) in
      elim (Verdict-cases v.1) [
        | inr (inr e) ↦ rw (e, loop) (closes s v.0 (broken out a who id ms p) (checks p s))
        | inr (inl (reason, e)) ↦
            rw (e, loop) (closes s v.0 (closed out a who id ms p reason none) (checks p s))
        | inl e ↦ elim (Option-cases w.1) [
          | inl y ↦ rw (e, y, loop) (closes s w.0 (cut out a who id ms p) c)
          | inr (ctx, y) ↦
              let t = asking out a who id ctx w.0 in
              let k = chain s w.0 t c (requests ctx w.0) in
              elim (Answer-cases (out.model w.0.asked)) [
                | inr (inl f) ↦ rw (e, y, f, loop) (closes s t (broken out a who id ctx p) k)
                | inr (inr f) ↦ rw (e, y, f, loop) (closes s t (cut out a who id ctx p) k)
                | inl (resp, f) ↦
                    let p2 = counted out a who id resp p in
                    let ms2 = ctx ++ (asks resp ∷ []) in
                    elim (List-cases resp.tool_calls) [
                      | inl g ↦
                          rw (e, y, f, g, loop)
                            (closes s t (closed out a who id ms2 p2 answered (some resp.content)) k)
                      | inr (c, cs, g) ↦
                          let u = run_tools out a who (c ∷ cs) none ms2 t.tools in
                          let t2 : State Args = record t { tools = u.0 } in
                          let k2 = chain s t t2 k (calls (c ∷ cs) ms2 t) in
                          let t3 = write out a who id (saved u.1 p2) t2 in
                          let k3 = closes s t2 (saved u.1 p2) k2 in
                          elim (List-cases u.2) [
                            | inr (d, ds, i) ↦
                                rw (e, y, f, g, i, loop)
                                  (closes s t2 (waits out a who id u.1 p2 (d ∷ ds)) k2)
                            | inl i ↦ elim (Bool-cases (is_stalled a u.1)) [
                              | inl j ↦
                                  rw (e, y, f, g, i, j, loop)
                                    (closes s t3 (closed out a who id u.1 p2 stalled none) k3)
                              | inr j ↦
                                  rw (e, y, f, g, i, j, loop)
                                    (chain s t3 (loop out a who id n u.1 p2 t3).0 k3
                                      (loop_induction n u.1 p2 t3))
                            ]
                          ]
                    ]
              ]
        ]
      ]

  make_plan_induction :
      (size : ℕ) (ms : List Message) (p : Progress) (s : State Args)
      → P s (make_plan out a who id size ms p s).2
  unfolding make_plan
  make_plan_induction size [] p s = writes (broken out a who id [] p) s
  make_plan_induction size (m ∷ ms) p s =
      let ask = user_says (out.plan_prompt size m.content) ∷ [] in
      let t = asking out a who id ask s in
      let k = requests ask s in
      elim (Bool-cases (out.has_plan m.content)) [
        | inl b ↦ rw (b, make_plan) (same s)
        | inr b ↦ elim (Answer-cases (out.model s.asked)) [
          | inl (resp, f) ↦
              let ms2 = planned out a who id m (out.strip resp.content) ∷ ms in
              rw (b, f, make_plan) (closes s t (saved ms2 (spend resp p)) k)
          | inr (inl f) ↦ rw (b, f, make_plan) (closes s t (broken out a who id (m ∷ ms) p) k)
          | inr (inr f) ↦ rw (b, f, make_plan) (closes s t (cut out a who id (m ∷ ms) p) k)
        ]
      ]

  plan_induction :
      (size : ℕ) (ms : List Message) (p : Progress) (s : State Args)
      → P s (plan_and_loop out a who id size ms p s).0
  unfolding plan_and_loop
  plan_induction size ms p s =
      let v = check out a who id p s in
      elim (Verdict-cases v.1) [
        | inr (inr e) ↦ rw (e, plan_and_loop) (closes s v.0 (broken out a who id ms p) (checks p s))
        | inr (inl (reason, e)) ↦
            rw (e, plan_and_loop) (closes s v.0 (closed out a who id ms p reason none) (checks p s))
        | inl e ↦
            let t = make_plan out a who id size ms p v.0 in
            let k = chain s v.0 t.2 (checks p s) (make_plan_induction size ms p v.0) in
            elim (Option-cases t.3) [
              | inr (end, f) ↦ rw (e, f, plan_and_loop) k
              | inl f ↦
                  rw (e, f, plan_and_loop)
                    (chain s t.2 (loop out a who id (a.max_steps + 1) t.0 t.1 t.2).0 k
                      (loop_induction (a.max_steps + 1) t.0 t.1 t.2))
            ]
      ]

  from_plan_induction :
      (plan : Option ℕ) (ms : List Message) (p : Progress) (s : State Args)
      → P s (from_plan out a who id plan ms p s).0
  unfolding from_plan
  from_plan_induction none ms p s = loop_induction (a.max_steps + 1) ms p s
  from_plan_induction (some size) ms p s = plan_induction size ms p s

  -- The pending calls, under the decision, are the only others.
  pub go_on_induction :
      (pending : Option (List ToolCall)) (decision : Option Bool) (ms : List Message) (p : Progress)
      (s : State Args)
      → ((cs : List ToolCall)
          → pending ≡ some cs
          → P s (record s { tools = (run_tools out a who cs decision ms s.tools).0 }))
      → P s (go_on out a who id pending decision ms p s).0
  unfolding go_on
  go_on_induction none decision ms p s first = elim (Bool-cases (leb p.step 0)) [
    | inr b ↦ rw (b, go_on) (loop_induction (a.max_steps + 1) ms p s)
    | inl b ↦ rw (b, go_on) (from_plan_induction a.plan ms p s)
  ]
  go_on_induction (some cs) decision ms p s first =
      let u = run_tools out a who cs decision ms s.tools in
      let t : State Args = record s { tools = u.0 } in
      let k = first cs refl in
      elim (List-cases u.2) [
        | inl e ↦
            rw (e, go_on)
              (chain s t (loop out a who id (a.max_steps + 1) u.1 p t).0 k
                (loop_induction (a.max_steps + 1) u.1 p t))
        | inr (d, ds, e) ↦ rw (e, go_on) (closes s t (waits out a who id u.1 p (d ∷ ds)) k)
      ]
