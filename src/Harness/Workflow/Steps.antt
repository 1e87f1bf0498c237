-- ===== src/Harness/Workflow/Steps.antt =====
-- How a workflow ends, and what its models may cost (harness/workflow.py, run_workflow).
use mathlib.Core.Path.{subst}
use mathlib.Core.List.{append_assoc, append-nil}
use core_ai_protocol_suite.Prelude.{
  ◌≡◌, refl, sym, ap, ◌∙◌, ◌⊎◌, inl, inr, String, Bool, true, false, Option, none, some, List, [],
  ◌∷◌, ◌++◌, map, All, Bool-cases,
}
use core_ai_protocol_suite.Tools.{approval_required, ToolRegistry, Called, completed, failed, Code}
use core_ai_protocol_suite.Harness.Workflow.{
  begin, Json, Kind, tool_step, model_step, Step, Answer, Env, Grant, StepRecord, Progress, Outcome,
  Status, completed_, failed_, needs_approval, cost_limit, note, learn, stop_for, after_tool,
  after_model, run_step, over, ended, run_from, run_workflow,
}

abbrev id_of : Step → String
id_of st = st.id

abbrev named : StepRecord → String
named x = x.id

abbrev Ok : StepRecord → Type 0
Ok x = x.ok ≡ true

abbrev done : Step → Bool → StepRecord
done st ok = record { id = st.id; kind = st.kind; ok = ok }

-- The last record is of the step that failed, the ones before it are of the steps before, and no
-- later step was begun.
abbrev pub StopsAt : List Step → List StepRecord → Option String → Type 0
StopsAt steps records f =
    (before : List StepRecord) × (st : Step) × (rest : List Step) × (records
      ≡ before ++ done st false ∷ [])
    × All Ok before
    × (map id_of steps ≡ map named before ++ st.id ∷ map id_of rest)
    × (f ≡ some st.id)

-- What the records and the failed step say of the steps, by the status.
abbrev pub Reports : List Step → List StepRecord → Status → Option String → Type 0
Reports steps records completed_ f =
    (map named records ≡ map id_of steps) × All Ok records × (f ≡ none)
Reports steps records cost_limit f =
    (st : Step) × (rest : List Step) × (map id_of steps
      ≡ map named records ++ st.id ∷ map id_of rest)
    × All Ok records
    × (f ≡ some st.id)
Reports steps records failed_ f = StopsAt steps records f
Reports steps records needs_approval f = StopsAt steps records f

StopsAt-cons :
    (st : Step) (steps : List Step) (records : List StepRecord) (f : Option String)
    → StopsAt steps records f
    → StopsAt (st ∷ steps) (done st true ∷ records) f
StopsAt-cons st steps records f (before, s, rest, e, oks, ids, last) = (
  done st true ∷ before,
  s,
  rest,
  ap (λ (l : List StepRecord). done st true ∷ l) e,
  (refl, oks),
  ap (λ (l : List String). st.id ∷ l) ids,
  last,
)

Reports-cons :
    (st : Step) (steps : List Step) (records : List StepRecord) (s : Status) (f : Option String)
    → Reports steps records s f
    → Reports (st ∷ steps) (done st true ∷ records) s f
Reports-cons st steps records completed_ f (ids, oks, e) =
    (ap (λ (l : List String). st.id ∷ l) ids, (refl, oks), e)
Reports-cons st steps records cost_limit f (s, rest, ids, oks, e) =
    (s, rest, ap (λ (l : List String). st.id ∷ l) ids, (refl, oks), e)
Reports-cons st steps records failed_ f u = StopsAt-cons st steps records f u
Reports-cons st steps records needs_approval f u = StopsAt-cons st steps records f u

-- A step went well, or it stops the workflow.
abbrev Noted : Step → Progress → Progress × Option Status → Type 0
Noted st p r =
    ((r.1 ≡ none) × (r.0.steps ≡ p.steps ++ done st true ∷ []))
    ⊎ ((status : Status) × (r.1 ≡ some status)
        × ((status ≡ failed_) ⊎ (status ≡ needs_approval))
        × (r.0.steps ≡ p.steps ++ done st false ∷ []))

stop_for-failed : (code : Code) → (stop_for code ≡ failed_) ⊎ (stop_for code ≡ needs_approval)
unfolding stop_for
stop_for-failed approval_required = inr refl
stop_for-failed _ = inl refl

after_tool-Noted : (st : Step) (c : Called) (p : Progress) → Noted st p (after_tool st c p)
unfolding after_tool note learn
after_tool-Noted st (completed s) p = inl (refl, refl)
after_tool-Noted st (failed code) p = inr (stop_for code, refl, stop_for-failed code, refl)

after_model-Noted : (st : Step) (a : Option Answer) (p : Progress) → Noted st p (after_model st a p)
unfolding after_model note learn
after_model-Noted st none p = inr (failed_, refl, inl refl, refl)
after_model-Noted st (some a) p = inl (refl, refl)

run_step-Noted :
    (env : Env) (g : Grant) (kind : Kind) (st : Step) (p : Progress)
    → Noted st p (run_step env g kind st p)
unfolding run_step
run_step-Noted env g tool_step st p = after_tool-Noted st _ _
run_step-Noted env g model_step st p = after_model-Noted st _ _

-- From some step on, the records that are added report on the steps.
abbrev Told : List Step → Progress → Progress × Outcome → Type 0
Told steps p r =
    (news : List StepRecord) × (r.0.steps ≡ p.steps ++ news)
    × Reports steps news r.1.status r.1.failed_step

Reports-stop :
    (st : Step) (rest : List Step) (status : Status)
    → (status ≡ failed_) ⊎ (status ≡ needs_approval)
    → Reports (st ∷ rest) (done st false ∷ []) status (some st.id)
Reports-stop st rest status (inl e) = rw e ([], st, rest, refl, tt, refl, refl)
Reports-stop st rest status (inr e) = rw e ([], st, rest, refl, tt, refl, refl)

run_from-Told :
    (env : Env) (g : Grant) (steps : List Step) (last : Option String) (p : Progress)
    → Told steps p (run_from env g steps last p)
unfolding run_from ended
run_from-Told env g [] none p = ([], sym (append-nil p.steps), (refl, tt, refl))
run_from-Told env g [] (some id) p = ([], sym (append-nil p.steps), (refl, tt, refl))
run_from-Told env g (st ∷ rest) last p = elim (Bool-cases (over g.max_cost p.cost)) [
  | inl h ↦ rw (h, run_from) ([], sym (append-nil p.steps), (st, rest, refl, tt, refl))
  | inr h ↦ elim (run_step-Noted env g st.kind st p) [
    | inl (e, noted) ↦
        let (news, grown, told) =
          run_from-Told env g rest (some st.id) (run_step env g st.kind st p).0 in
        rw (h, e, run_from)
          (
            done st true ∷ news,
            grown ∙ rw noted (append_assoc p.steps (done st true ∷ []) news),
            Reports-cons st rest news _ _ told,
          )
    | inr (status, e, stops, noted) ↦
        rw (h, e, run_from) (done st false ∷ [], noted, Reports-stop st rest status stops)
  ]
]

-- The records of a workflow are those of its first steps, in order and all successful but the last
-- of one that failed or needs approval; the status says whether every step has run, and if not, the
-- failed step is the one that was refused, failed or not begun.
pub run_workflow-Reports :
    (env : Env) (g : Grant) (steps : List Step) (input : String) (registry : ToolRegistry Json)
    → Reports steps
        (run_workflow env g steps input registry).0.steps
        (run_workflow env g steps input registry).1.status
        (run_workflow env g steps input registry).1.failed_step
unfolding run_workflow begin
run_workflow-Reports env g steps input registry =
    let (news, grown, told) = run_from-Told env g steps none (begin input registry) in
    subst
      (λ (l : List StepRecord).
        Reports steps l (run_from env g steps none (begin input registry)).1.status
          (run_from env g steps none (begin input registry)).1.failed_step)
      (sym grown) told
