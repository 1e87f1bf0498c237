-- ===== src/Harness/Loop/Writes.antt =====
-- The writes of an execution to its row, and its looks at the limits (harness/runner.py, _limit,
-- _checkpoint and _end).
use core_ai_protocol_suite.Prelude.{
  ℕ, ◌≤◌, ◌<◌, ◌≡◌, ◌≢◌, refl, ap, ◌∙◌, ◌⊎◌, inl, inr, String, Bool, true, false, Option, some,
  List, Option-cases, arith,
}
use core_ai_protocol_suite.Conversation.{Message}
use core_ai_protocol_suite.ToolLoop.{Response}
use core_ai_protocol_suite.Harness.Store.{
  Status, running, Run, Reason, by_pause, by_cancel, by_kill, deadline, max_steps, cost_limit,
  token_limit, stalled, answered, error, shutdown, Progress, get, update, request, signalled,
}
use core_ai_protocol_suite.Harness.Store.Control.{mapped, get-update}
use core_ai_protocol_suite.Harness.Runner.{
  Answer, responds, raises, stops, Outside, AgentDef, Authority, State, limit,
}
use core_ai_protocol_suite.Harness.Loop.{
  Ending, not_found, exhausted, Verdict, goes, ends, lost, write, closed, check, verdict_of,
}

abbrev pub is_running : Status → Bool
is_running running = true
is_running _ = false

abbrev pub is_back : Ending → Bool
is_back exhausted = false
is_back not_found = false
is_back _ = true

pub Answer-cases : (x : Answer) → ((r : Response) × (x ≡ responds r)) ⊎ (x ≡ raises) ⊎ (x ≡ stops)
Answer-cases (responds r) = inl (r, refl)
Answer-cases raises = inr (inl refl)
Answer-cases stops = inr (inr refl)

pub Verdict-cases : (v : Verdict) → (v ≡ goes) ⊎ ((r : Reason) × (v ≡ ends r)) ⊎ (v ≡ lost)
Verdict-cases goes = inl refl
Verdict-cases (ends r) = inr (inl (r, refl))
Verdict-cases lost = inr (inr refl)

module _ {Args : Type 0} (out : Outside Args) (a : AgentDef) (who : Authority) (id : String) where
  -- The run is at rest, and what it took: steps and calls of the model.
  pub record IsSettled (steps calls : ℕ) (q : State Args × Ending) : Type 0 where
    pub back : is_back q.1 ≡ true
    pub row : Run
    pub read : get id q.0.store ≡ some row
    pub rests : is_running row.status ≡ false
    pub within : row.step ≤ steps
    pub paid : q.0.asked ≤ calls

  pub get-write :
      (f : Run → Run) (s : State Args) (r : Run)
      → get id s.store ≡ some r
      → get id (write out a who id f s).store ≡ some (f r)
  unfolding write
  get-write f s r h = get-update id f s.store ∙ ap (mapped f) h

  pub write-asked : (f : Run → Run) (s : State Args) → (write out a who id f s).asked ≡ s.asked
  unfolding write
  write-asked f s = refl

  pub weaken :
      (m n i j : ℕ) (q : State Args × Ending) → IsSettled m i q → m ≤ n → i ≤ j → IsSettled n j q
  weaken m n i j q v l k = record {
    back = v.back;
    row = v.row;
    read = v.read;
    rests = v.rests;
    within = omega (arith, v.within);
    paid = omega (arith, v.paid);
  }

  -- A last write that leaves the run at rest.
  pub written :
      (f : Run → Run) (s : State Args) (r : Run) (e : Ending) (steps calls : ℕ)
      → get id s.store ≡ some r
      → is_back e ≡ true
      → is_running (f r).status ≡ false
      → (f r).step ≤ steps
      → s.asked ≤ calls
      → IsSettled steps calls (write out a who id f s, e)
  unfolding write
  written f s r e steps calls h b d l c = record {
    back = b;
    row = f r;
    read = get-write f s r h;
    rests = d;
    within = l;
    paid = c;
  }

  -- What a look at the limits leaves: the row, and everything that it does not write.
  pub record IsChecked (p : Progress) (s : State Args) : Type 0 where
    pub row : Run
    pub read : get id (check out a who id p s).0.store ≡ some row
    pub same_asked : (check out a who id p s).0.asked ≡ s.asked
    pub same_tools : (check out a who id p s).0.tools ≡ s.tools
    pub verdict : (check out a who id p s).1 ≡ verdict_of (limit a (out.time s.checks) p row)

  pub check-IsChecked :
      (p : Progress) (s : State Args) (r : Run) → get id s.store ≡ some r → IsChecked p s
  unfolding check request
  check-IsChecked p s r h = elim (Option-cases (out.signal s.checks)) [
    | inl e ↦ record {
      row = r;
      read = rw (e, check) h;
      same_asked = refl;
      same_tools = refl;
      verdict = rw (e, check, h) refl;
    }
    | inr (c, e) ↦
        let k : get id (update id (signalled c) s.store) ≡ some (signalled c r) =
          get-update id (signalled c) s.store ∙ ap (mapped (signalled c)) h in
        record {
          row = signalled c r;
          read = rw (e, check, request) k;
          same_asked = refl;
          same_tools = refl;
          verdict = rw (e, check, request, k) refl;
        }
  ]

  -- The loop goes on only below the limit of steps.
  pub goes-lt :
      (now : ℕ) (p : Progress) (r : Run)
      → verdict_of (limit a now p r) ≡ goes
      → p.step < a.max_steps
  unfolding limit
  goes-lt now p r h = ground arith

  pub not_lost : (now : ℕ) (p : Progress) (r : Run) → verdict_of (limit a now p r) ≢ lost
  unfolding limit
  not_lost now p r h = ground arith

  pub closed-rests :
      (ms : List Message) (p : Progress) (reason : Reason) (result : Option String) (r : Run)
      → (is_running (closed out a who id ms p reason result r).status ≡ false)
        × ((closed out a who id ms p reason result r).step ≡ p.step)
  closed-rests ms p by_pause result r = (refl, refl)
  closed-rests ms p by_cancel result r = (refl, refl)
  closed-rests ms p by_kill result r = (refl, refl)
  closed-rests ms p deadline result r = (refl, refl)
  closed-rests ms p max_steps result r = (refl, refl)
  closed-rests ms p cost_limit result r = (refl, refl)
  closed-rests ms p token_limit result r = (refl, refl)
  closed-rests ms p stalled result r = (refl, refl)
  closed-rests ms p answered result r = (refl, refl)
  closed-rests ms p error result r = (refl, refl)
  closed-rests ms p shutdown result r = (refl, refl)
