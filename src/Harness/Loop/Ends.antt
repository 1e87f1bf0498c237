-- ===== src/Harness/Loop/Ends.antt =====
-- How an execution of a run ends (harness/runner.py, _execute).
use core_ai_protocol_suite.Harness.Loop.Summaries.{each, each_left, compacted-IsCompacted}
use core_ai_protocol_suite.Harness.Loop.Plans.{make_plan-IsPlanned}
use core_ai_protocol_suite.Prelude.{
  Option-cases, ap, ℕ, zero, suc, ◌+◌, ◌-◌, ◌≤◌, ◌<◌, max, ◌≡◌, refl, sym, ◌∙◌, inl, inr, String,
  Bool, false, Option, none, some, List, [], ◌∷◌, ◌++◌, leb, Bool-cases, List-cases, arith,
}
use core_ai_protocol_suite.Conversation.{ToolCall, Message}
use core_ai_protocol_suite.ToolLoop.{asks}
use core_ai_protocol_suite.Harness.Calls.{run_tools}
use core_ai_protocol_suite.Harness.Store.{Run, stalled, answered, Progress, saved, get}
use core_ai_protocol_suite.Harness.Runner.{
  Outside, AgentDef, Authority, State, is_stalled, start_of, is_finished,
}
use core_ai_protocol_suite.Harness.Loop.{
  compacted, Ending, returned, cut_off, write, waits, closed, broken, cut, check, asking, counted,
  loop, make_plan, plan_and_loop, from_plan, go_on, execute_run, execute, begins,
}
use core_ai_protocol_suite.Harness.Loop.Writes.{
  Answer-cases, Verdict-cases, IsSettled, get-write, write-asked, weaken, written, check-IsChecked,
  goes-lt, not_lost, closed-rests,
}

module _ {Args : Type 0} (out : Outside Args) (a : AgentDef) (who : Authority) (id : String) where
  loop-IsSettled :
      (n : ℕ) (ms : List Message) (p : Progress) (s : State Args) (r : Run)
      → get id s.store ≡ some r
      → a.max_steps < n + p.step
      → 1 ≤ n
      → IsSettled out a who id
          (max p.step a.max_steps)
          (s.asked + each a.summarize (a.max_steps - p.step))
          (loop out a who id n ms p s)
  unfolding loop
  loop-IsSettled zero ms p s r h l k = absurd (omega (arith, k))
  loop-IsSettled (suc n) ms p s r h l k =
      let v = check out a who id p s in
      let seen = check-IsChecked out a who id p s r h in
      let steps = max p.step a.max_steps in
      let calls = s.asked + each a.summarize (a.max_steps - p.step) in
      elim (Verdict-cases v.1) [
        | inr (inr e) ↦
            absurd (not_lost out a who id (out.time s.checks) p seen.row (sym seen.verdict ∙ e))
        | inr (inl (reason, e)) ↦
            let c = closed-rests out a who id ms p reason none seen.row in
            rw (e, loop)
              (written out a who id (closed out a who id ms p reason none) v.0 seen.row returned
                steps calls seen.read refl c.0 (omega (arith, c.1))
                (omega (arith, seen.same_asked)))
        | inl e ↦
            let lt = goes-lt out a who id (out.time s.checks) p seen.row (sym seen.verdict ∙ e) in
            let left = each_left a.summarize p.step a.max_steps lt in
            let w = compacted out a who id ms v.0 in
            let c = compacted-IsCompacted out a who id ms v.0 in
            let paid = c.paid_for in
            let read = ap (get id) c.same_store ∙ seen.read in
            elim (Option-cases w.1) [
              | inl y ↦
                  rw (e, y, loop)
                    (written out a who id (cut out a who id ms p) w.0 seen.row cut_off steps calls
                      read refl refl (omega arith) (omega (arith, seen.same_asked, left, paid)))
              | inr (ctx, y) ↦
                  let t = asking out a who id ctx w.0 in
                  elim (Answer-cases (out.model w.0.asked)) [
                    | inr (inl f) ↦
                        rw (e, y, f, loop)
                          (written out a who id (broken out a who id ctx p) t seen.row returned
                            steps calls read refl refl (omega arith)
                            (omega (arith, seen.same_asked, left, paid)))
                    | inr (inr f) ↦
                        rw (e, y, f, loop)
                          (written out a who id (cut out a who id ctx p) t seen.row cut_off steps
                            calls read refl refl (omega arith)
                            (omega (arith, seen.same_asked, left, paid)))
                    | inl (resp, f) ↦
                        let p2 = counted out a who id resp p in
                        let ms2 = ctx ++ (asks resp ∷ []) in
                        elim (List-cases resp.tool_calls) [
                          | inl g ↦
                              rw (e, y, f, g, loop)
                                (written out a who id
                                  (closed out a who id ms2 p2 answered (some resp.content)) t
                                  seen.row returned steps calls read refl refl (omega (arith, lt))
                                  (omega (arith, seen.same_asked, left, paid)))
                          | inr (c, cs, g) ↦
                              let u = run_tools out a who (c ∷ cs) none ms2 t.tools in
                              let t2 : State Args = record t { tools = u.0 } in
                              elim (List-cases u.2) [
                                | inr (d, ds, i) ↦
                                    rw (e, y, f, g, i, loop)
                                      (written out a who id (waits out a who id u.1 p2 (d ∷ ds)) t2
                                        seen.row returned steps calls read refl refl
                                        (omega (arith, lt))
                                        (omega (arith, seen.same_asked, left, paid)))
                                | inl i ↦
                                    let t3 = write out a who id (saved u.1 p2) t2 in
                                    let k3 =
                                      get-write out a who id (saved u.1 p2) t2 seen.row read in
                                    elim (Bool-cases (is_stalled a u.1)) [
                                      | inl j ↦
                                          rw (e, y, f, g, i, j, loop)
                                            (written out a who id
                                              (closed out a who id u.1 p2 stalled none) t3
                                              (saved u.1 p2 seen.row) returned steps calls k3 refl
                                              refl (omega (arith, lt))
                                              (omega (
                                                arith,
                                                seen.same_asked,
                                                left,
                                                paid,
                                                write-asked out a who id (saved u.1 p2) t2,
                                              )))
                                      | inr j ↦
                                          rw (e, y, f, g, i, j, loop)
                                            (weaken out a who id _ steps _ calls _
                                              (loop-IsSettled n u.1 p2 t3 (saved u.1 p2 seen.row) k3
                                                (omega (arith, l)) (omega (arith, l, lt)))
                                              (omega (arith, lt))
                                              (omega (
                                                arith,
                                                seen.same_asked,
                                                left,
                                                paid,
                                                write-asked out a who id (saved u.1 p2) t2,
                                              )))
                                    ]
                              ]
                        ]
                  ]
            ]
      ]

  -- The bounds of an execution: the steps of the limit, and a call of the model more for the plan.
  abbrev pub IsBounded : Progress → State Args → State Args × Ending → Type 0
  IsBounded p s q =
      IsSettled out a who id (max p.step a.max_steps)
        (s.asked + 1 + each a.summarize (a.max_steps - p.step)) q

  whole_loop :
      (ms : List Message) (p : Progress) (s : State Args) (r : Run)
      → get id s.store ≡ some r
      → IsBounded p s (loop out a who id (a.max_steps + 1) ms p s)
  whole_loop ms p s r h =
      weaken out a who id _ _ _ _ _
        (loop-IsSettled (a.max_steps + 1) ms p s r h (omega arith) (omega arith)) (omega arith)
        (omega arith)

  plan_and_loop-IsBounded :
      (size : ℕ) (ms : List Message) (p : Progress) (s : State Args) (r : Run)
      → get id s.store ≡ some r
      → IsBounded p s (plan_and_loop out a who id size ms p s)
  unfolding plan_and_loop
  plan_and_loop-IsBounded size ms p s r h =
      let v = check out a who id p s in
      let seen = check-IsChecked out a who id p s r h in
      let steps = max p.step a.max_steps in
      let calls = s.asked + 1 + each a.summarize (a.max_steps - p.step) in
      elim (Verdict-cases v.1) [
        | inr (inr e) ↦
            absurd (not_lost out a who id (out.time s.checks) p seen.row (sym seen.verdict ∙ e))
        | inr (inl (reason, e)) ↦
            let c = closed-rests out a who id ms p reason none seen.row in
            rw (e, plan_and_loop)
              (written out a who id (closed out a who id ms p reason none) v.0 seen.row returned
                steps calls seen.read refl c.0 (omega (arith, c.1))
                (omega (arith, seen.same_asked)))
        | inl e ↦
            let t = make_plan out a who id size ms p v.0 in
            elim (make_plan-IsPlanned out a who id size ms p v.0 seen.row seen.read) [
              | inl (end, f, u) ↦
                  rw (e, f, plan_and_loop)
                    (weaken out a who id p.step steps (v.0.asked + 1) calls _ u (omega arith)
                      (omega (arith, seen.same_asked)))
              | inr (row, f, read, same, le) ↦
                  rw (e, f, plan_and_loop)
                    (weaken out a who id _ steps _ calls _
                      (loop-IsSettled (a.max_steps + 1) t.0 t.1 t.2 row read (omega arith)
                        (omega arith))
                      (omega (arith, same))
                      (omega (
                        arith,
                        ap (λ (k : ℕ). each a.summarize (a.max_steps - k)) same,
                        le,
                        seen.same_asked,
                      )))
            ]
      ]

  from_plan-IsBounded :
      (plan : Option ℕ) (ms : List Message) (p : Progress) (s : State Args) (r : Run)
      → get id s.store ≡ some r
      → IsBounded p s (from_plan out a who id plan ms p s)
  unfolding from_plan
  from_plan-IsBounded none ms p s r h = whole_loop ms p s r h
  from_plan-IsBounded (some size) ms p s r h = plan_and_loop-IsBounded size ms p s r h

  go_on-IsBounded :
      (pending : Option (List ToolCall)) (decision : Option Bool) (ms : List Message) (p : Progress)
      (s : State Args) (r : Run)
      → get id s.store ≡ some r
      → IsBounded p s (go_on out a who id pending decision ms p s)
  unfolding go_on
  go_on-IsBounded none decision ms p s r h = elim (Bool-cases (leb p.step 0)) [
    | inr b ↦ rw (b, go_on) (whole_loop ms p s r h)
    | inl b ↦ rw (b, go_on) (from_plan-IsBounded a.plan ms p s r h)
  ]
  go_on-IsBounded (some cs) decision ms p s r h =
      let u = run_tools out a who cs decision ms s.tools in
      let t : State Args = record s { tools = u.0 } in
      elim (List-cases u.2) [
        | inl e ↦ rw (e, go_on) (whole_loop u.1 p t r h)
        | inr (d, ds, e) ↦
            rw (e, go_on)
              (written out a who id (waits out a who id u.1 p (d ∷ ds)) t r returned _ _ h refl refl
                (omega arith) (omega arith))
      ]

-- Any execution of an unfinished run whose agent is known comes back after finitely many turns and
-- leaves the run at rest - answered, paused, waiting, cancelled or failed, never as running - with no
-- more steps than the agent's limit, or those it had, and with at most one call of the model for each
-- step that was left, two if the agent has dropped messages summarized, and one for the plan.
pub execute-IsSettled :
    {Args : Type 0} (out : Outside Args) (agents : String → Option AgentDef) (who : Authority)
    (id : String) (decision : Option Bool) (s : State Args) (r : Run) (a : AgentDef)
    → get id s.store ≡ some r
    → agents r.agent ≡ some a
    → is_finished r ≡ false
    → IsBounded out a who id (start_of r) s (execute out agents who id decision s)
unfolding execute execute_run
execute-IsSettled out agents who id decision s r a h k d =
    rw (h, d, k, execute)
      (go_on-IsBounded out a who id r.pending decision r.messages (start_of r)
        (write out a who id (begins out a who id) s) (begins out a who id r)
        (get-write out a who id (begins out a who id) s r h))
