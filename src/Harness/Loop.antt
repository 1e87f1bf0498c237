-- ===== src/Harness/Loop.antt =====
-- src/harness/runner.py: HarnessRunner._execute, with the limits, the plan and the model calls
-- of a run.
pub mod Writes
pub mod Summaries
pub mod Plans
pub mod Ends
pub mod Turns
pub mod Supervision
use text.Mathlib.Text.{◌==◌ as str_eq}
use core_ai_protocol_suite.Prelude.{
  ℕ, zero, suc, ◌+◌, String, Bool, true, false, Option, none, some, List, [], ◌∷◌, ◌++◌, leb,
  if◌then◌else◌,
}
use core_ai_protocol_suite.Conversation.{ToolCall, Message}
use core_ai_protocol_suite.ToolLoop.{Response, asks}
use core_ai_protocol_suite.Harness.Calls.{run_tools}
use core_ai_protocol_suite.Harness.Context.{dropped, compact, user_says}
use core_ai_protocol_suite.Harness.Store.{
  Status, running, paused, waiting_approval, failed, Signal, idle, Reason, by_pause, answered,
  stalled, error, shutdown, Run, RunStore, Progress, saved, get, update, request,
}
use core_ai_protocol_suite.Harness.Runner.{
  Answer, responds, raises, stops, Outside, AgentDef, Authority, State, start_of, spend,
  is_finished, limit, status_for, is_stalled,
}

-- How an execution comes back: with the row, with a KeyError for the run or its agent, with the
-- CancelledError of a shutdown, or not at all within the fuel.
pub data Ending : Type 0 where
  returned not_found cut_off exhausted : Ending

-- What a look at the limits comes to; `lost` is a KeyError for the row.
pub data Verdict : Type 0 where
  goes : Verdict
  ends : Reason → Verdict
  lost : Verdict

abbrev pub verdict_of : Option Reason → Verdict
verdict_of none = goes
verdict_of (some reason) = ends reason

module _ {Args : Type 0} (out : Outside Args) (a : AgentDef) (who : Authority) (id : String) where
  unfoldable pub write : (Run → Run) → State Args → State Args
  unfolding update
  write f s = record s { store = update id f s.store }

  -- `_wait`
  abbrev pub waits : List Message → Progress → List ToolCall → Run → Run
  waits ms p cs r = record (saved ms p r) { status = waiting_approval; pending = some cs }

  -- `_end`
  abbrev pub closed : List Message → Progress → Reason → Option String → Run → Run
  closed ms p by_pause result r = record (saved ms p r) {
    status = paused;
    control = idle;
    stop_reason = some by_pause;
  }
  closed ms p reason result r = record (saved ms p r) {
    status = status_for reason;
    stop_reason = some reason;
    control = idle;
    result = result;
  }

  -- The handler of `Exception`.
  abbrev pub broken : List Message → Progress → Run → Run
  broken ms p r = record (saved ms p r) { status = failed; stop_reason = some error }

  -- The handler of `CancelledError`.
  abbrev pub cut : List Message → Progress → Run → Run
  cut ms p r = record (saved ms p r) { status = paused; stop_reason = some shutdown }

  -- `_limit`, after the signal that came before it.
  unfoldable pub check : Progress → State Args → State Args × Verdict
  unfolding limit request get
  check p s =
      let store : RunStore = elim (out.signal s.checks) [
        | none ↦ s.store
        | some c ↦ request id c s.store
      ] in
      (
        record s { store = store; checks = s.checks + 1 },
        elim (get id store) [ none ↦ lost | some r ↦ verdict_of (limit a (out.time s.checks) p r) ],
      )

  -- The request of a model call is noted.
  abbrev pub asking : List Message → State Args → State Args
  asking ms s = record s { asked = s.asked + 1; sent = ms ∷ s.sent }

  -- The summarizer's call of the model on what is dropped, where the agent has one: its answer is the
  -- note, an exception leaves the note of `compact`, and a cancellation leaves no messages.
  unfoldable pub summarized :
      Bool → List Message → List Message → State Args → State Args × Option (List Message)
  summarized false ds ms s = (s, some (compact out.measure ms).0)
  summarized true [] ms s = (s, some (compact out.measure ms).0)
  summarized true (d ∷ ds) ms s =
      let t = asking (user_says (out.summary_prompt (d ∷ ds)) ∷ []) s in
      elim (out.model s.asked) [
        | responds r ↦ (
          t,
          some (compact (record out.measure { note = λ gone. out.summary_note r.content }) ms).0,
        )
        | raises ↦ (t, some (compact out.measure ms).0)
        | stops ↦ (t, none)
      ]

  unfoldable pub compacted : List Message → State Args → State Args × Option (List Message)
  unfolding summarized
  compacted ms s = summarized a.summarize (dropped out.measure ms) ms s

  abbrev pub counted : Response → Progress → Progress
  counted r p = record (spend r p) { step = p.step + 1 }

  -- The turns of the `while` loop, at most so many.
  unfoldable pub loop : ℕ → List Message → Progress → State Args → State Args × Ending
  unfolding check write
  loop zero ms p s = (s, exhausted)
  loop (suc n) ms p s =
      let v = check p s in
      elim v.1 [
        | lost ↦ (write (broken ms p) v.0, returned)
        | ends reason ↦ (write (closed ms p reason none) v.0, returned)
        | goes ↦
            let w = compacted ms v.0 in
            elim w.1 [
              | none ↦ (write (cut ms p) w.0, cut_off)
              | some ctx ↦
                  let s = asking ctx w.0 in
                  elim (out.model w.0.asked) [
                    | raises ↦ (write (broken ctx p) s, returned)
                    | stops ↦ (write (cut ctx p) s, cut_off)
                    | responds r ↦
                        let p = counted r p in
                        let ms = ctx ++ (asks r ∷ []) in
                        elim r.tool_calls [
                          | [] ↦ (write (closed ms p answered (some r.content)) s, returned)
                          | c ∷ cs ↦
                              let t = run_tools out a who (c ∷ cs) none ms s.tools in
                              let s = record s { tools = t.0 } in
                              elim t.2 [
                                | d ∷ ds ↦ (write (waits t.1 p (d ∷ ds)) s, returned)
                                | [] ↦
                                    let s = write (saved t.1 p) s in
                                    if is_stalled a t.1
                                    then (write (closed t.1 p stalled none) s, returned)
                                    else loop n t.1 p s
                              ]
                        ]
                  ]
            ]
      ]

  abbrev pub planned : Message → String → Message
  planned m plan = elim (str_eq plan "") [
    | true ↦ m
    | false ↦ record {
      role = m.role;
      content = out.with_plan m.content plan;
      tool_calls = [];
      tool_call_id = none;
    }
  ]

  -- The plan, if the run is to make one: a call of the model without tools, whose answer is
  -- appended to the first message; an ending where it fails.
  unfoldable pub make_plan :
      ℕ
      → List Message
      → Progress
      → State Args
      → List Message × Progress × State Args × Option Ending
  unfolding write
  make_plan size [] p s = ([], p, write (broken [] p) s, some returned)
  make_plan size (m ∷ ms) p s =
      let t = asking (user_says (out.plan_prompt size m.content) ∷ []) s in
      if out.has_plan m.content then (m ∷ ms, p, s, none) else elim (out.model s.asked) [
        | raises ↦ (m ∷ ms, p, write (broken (m ∷ ms) p) t, some returned)
        | stops ↦ (m ∷ ms, p, write (cut (m ∷ ms) p) t, some cut_off)
        | responds r ↦
            let ms = planned m (out.strip r.content) ∷ ms in
            (ms, spend r p, write (saved ms (spend r p)) t, none)
      ]

  -- From the plan on.
  unfoldable pub plan_and_loop : ℕ → List Message → Progress → State Args → State Args × Ending
  plan_and_loop size ms p s =
      let v = check p s in
      elim v.1 [
        | lost ↦ (write (broken ms p) v.0, returned)
        | ends reason ↦ (write (closed ms p reason none) v.0, returned)
        | goes ↦
            let t = make_plan size ms p v.0 in
            elim t.3 [ some e ↦ (t.2, e) | none ↦ loop (a.max_steps + 1) t.0 t.1 t.2 ]
      ]

  unfoldable pub from_plan : Option ℕ → List Message → Progress → State Args → State Args × Ending
  from_plan none ms p s = loop (a.max_steps + 1) ms p s
  from_plan (some size) ms p s = plan_and_loop size ms p s

  -- The body of the `try`.
  unfoldable pub go_on :
      Option (List ToolCall)
      → Option Bool
      → List Message
      → Progress
      → State Args
      → State Args × Ending
  unfolding write
  go_on none decision ms p s =
      if leb p.step 0 then from_plan a.plan ms p s else loop (a.max_steps + 1) ms p s
  go_on (some cs) decision ms p s =
      let t = run_tools out a who cs decision ms s.tools in
      let s = record s { tools = t.0 } in
      elim t.2 [
        | d ∷ ds ↦ (write (waits t.1 p (d ∷ ds)) s, returned)
        | [] ↦ loop (a.max_steps + 1) t.1 p s
      ]

  abbrev pub begins : Run → Run
  begins r = record r { status = running; pending = none }

  -- On the row, once the agent is known.
  unfoldable pub execute_run : Run → Option Bool → State Args → State Args × Ending
  unfolding write
  execute_run r decision s = go_on r.pending decision r.messages (start_of r) (write begins s)

-- `_execute`: the agents are the ones known, with `effective` applied.
unfoldable pub execute :
    {Args : Type 0}
    → Outside Args
    → (String → Option AgentDef)
    → Authority
    → String
    → Option Bool
    → State Args
    → State Args × Ending
unfolding get
execute out agents who id decision s = elim (get id s.store) [
  | none ↦ (s, not_found)
  | some r ↦ if is_finished r then (s, returned) else elim (agents r.agent) [
    | none ↦ (s, not_found)
    | some a ↦ execute_run out a who id r decision s
  ]
]
