-- ===== src/Harness/Workflow/Calls.antt =====
-- What a workflow runs and what it costs (harness/workflow.py, run_workflow).
use core_ai_protocol_suite.Dict.{Dict}
use mathlib.Core.Option.{none-ne-some, some-injective}
use mathlib.Core.Path.{subst}
use core_ai_protocol_suite.Prelude.{
  ◌⊎◌, ℕ, ◌+◌, ◌≤◌, ◌<◌, ◌≡◌, refl, sym, ap, ◌∙◌, inl, inr, String, false, Option, none, some, List,
  [], ◌∷◌, length, arith, Bool-cases, Option-cases, contains,
}
use core_ai_protocol_suite.Tools.{
  Permission, Execution, ToolRegistry, Called, completed, failed, call,
}
use core_ai_protocol_suite.Tools.Guards.{IsPermitted, call-IsGuarded}
use core_ai_protocol_suite.Harness.Workflow.{
  fill, Json, Kind, tool_step, model_step, Step, Answer, Env, Grant, Progress, note, learn,
  after_tool, after_model, run_step, over, begin, run_from, run_workflow, or_zero,
}

-- The cost of an answer is at most `c`.
abbrev pub Cheap : Env → ℕ → Type 0
Cheap env c = (n : ℕ) (a : Answer) → env.route n ≡ some a → or_zero a.cost ≤ c

over-lt : (m : Option ℕ) (limit cost : ℕ) → m ≡ some limit → over m cost ≡ false → cost < limit
unfolding over
over-lt none limit cost e h = absurd (none-ne-some limit e)
over-lt (some k) limit cost e h =
    let same = some-injective _ _ e in let lt : cost < k = ground arith in omega (arith, same, lt)

after_model-cost :
    (st : Step) (a : Option Answer) (p : Progress) (n limit c : ℕ) (env : Env)
    → Cheap env c
    → env.route n ≡ a
    → p.cost < limit
    → (after_model st a p).0.cost ≤ limit + c
unfolding after_model note learn
after_model-cost st none p n limit c env u e lt = omega (arith, lt)
after_model-cost st (some a) p n limit c env u e lt = omega (arith, lt, u n a e)

after_tool-cost : (st : Step) (d : Called) (p : Progress) → (after_tool st d p).0.cost ≡ p.cost
unfolding after_tool note learn
after_tool-cost st (completed s) p = refl
after_tool-cost st (failed code) p = refl

run_step-cost :
    (env : Env) (g : Grant) (kind : Kind) (st : Step) (p : Progress) (limit c : ℕ)
    → Cheap env c
    → p.cost < limit
    → (run_step env g kind st p).0.cost ≤ limit + c
unfolding run_step
run_step-cost env g tool_step st p limit c u lt = omega (arith, lt, after_tool-cost st _ _)
run_step-cost env g model_step st p limit c u lt =
    after_model-cost st _ _ (length p.sent) limit c env u refl lt

run_from-cost :
    (env : Env) (g : Grant) (limit c : ℕ)
    → Cheap env c
    → g.max_cost ≡ some limit
    → (steps : List Step) (last : Option String) (p : Progress) → p.cost ≤ limit + c
    → (run_from env g steps last p).0.cost ≤ limit + c
unfolding run_from
run_from-cost env g limit c u e [] none p le = le
run_from-cost env g limit c u e [] (some id) p le = le
run_from-cost env g limit c u e (st ∷ rest) last p le = elim (Bool-cases (over g.max_cost p.cost)) [
  | inl h ↦ rw (h, run_from) le
  | inr h ↦
      let v = run_step-cost env g st.kind st p limit c u (over-lt g.max_cost limit p.cost e h) in
      elim (Option-cases (run_step env g st.kind st p).1) [
        | inl f ↦
            rw (h, f, run_from)
              (run_from-cost env g limit c u e rest (some st.id) (run_step env g st.kind st p).0 v)
        | inr (status, f) ↦ rw (h, f, run_from) v
      ]
]

-- A workflow with a cost limit costs at most the limit and one answer more.
pub run_workflow-cost :
    (env : Env) (g : Grant) (limit c : ℕ) (steps : List Step) (input : String)
    (registry : ToolRegistry Json)
    → Cheap env c
    → g.max_cost ≡ some limit
    → (run_workflow env g steps input registry).0.cost ≤ limit + c
unfolding run_workflow begin
run_workflow-cost env g limit c steps input registry u e =
    run_from-cost env g limit c u e steps none (begin input registry) (omega arith)

IsPermitted-at :
    (r q : ToolRegistry Json) (allowed : Option (List String)) (m : Permission) (x : Execution Json)
    → q.tools ≡ r.tools
    → IsPermitted q allowed m x
    → IsPermitted r allowed m x
IsPermitted-at r q allowed m x e u = record {
  tool_of = u.tool_of;
  registered = rw e at u.registered;
  named = u.named;
  within = u.within;
  fits = u.fits;
  same_permission = u.same_permission;
  approval = u.approval;
}

-- Executions one after the other, put in front of those before them.
abbrev pub pushed : List (Execution Json) → List (Execution Json) → List (Execution Json)
pushed [] before = before
pushed (x ∷ xs) before = pushed xs (x ∷ before)

module _ (env : Env) (g : Grant) (r : ToolRegistry Json) where
  -- The call of a tool step: of its tool, with its own arguments filled with some values, for the
  -- caller of the workflow, marked as approved exactly if this step is among the approved ones, and
  -- within what the registry permits.
  abbrev pub IsIssued : Step → Execution Json → Type 0
  IsIssued st x =
      (st.kind ≡ tool_step)
      × (x.tool ≡ st.tool)
      × ((raw : Dict String String) × (x.arguments ≡ fill (env.substitute raw) st.args))
      × (x.approved ≡ contains st.id g.approved)
      × (x.caller ≡ g.caller)
      × IsPermitted r g.allowed g.max_permission x

  -- The executions are calls of the steps, in the order of the steps and at most one of each.
  pub data Served : List Step → List (Execution Json) → Type 0 where
    stopped : {steps : List Step} → Served steps []
    silent :
        {st : Step} {rest : List Step} {xs : List (Execution Json)}
        → Served rest xs
        → Served (st ∷ rest) xs
    issued :
        {st : Step} {rest : List Step} {x : Execution Json} {xs : List (Execution Json)}
        → IsIssued st x
        → Served rest xs
        → Served (st ∷ rest) (x ∷ xs)

  -- The tools are the ones of the start, and what has run since `before` serves the steps.
  abbrev pub Issues : List Step → List (Execution Json) → ToolRegistry Json → Type 0
  Issues steps before q =
      (q.tools ≡ r.tools)
      × (xs : List (Execution Json)) × (q.ran ≡ pushed xs before)
      × Served steps xs

  -- What one step runs.
  abbrev One : Step → ToolRegistry Json → ToolRegistry Json → Type 0
  One st q next =
      (next.tools ≡ r.tools)
      × ((next.ran ≡ q.ran) ⊎ ((x : Execution Json) × (next.ran ≡ x ∷ q.ran) × IsIssued st x))

  call-One :
      (st : Step) (raw : Dict String String) (now : ℕ) (q : ToolRegistry Json)
      → st.kind ≡ tool_step
      → q.tools ≡ r.tools
      → One st q
          (call env.handled now st.tool
            (some (fill (env.substitute raw) st.args))
            g.allowed
            g.caller
            (contains st.id g.approved)
            g.max_permission
            q).0
  call-One st raw now q kind tools =
      let u =
        call-IsGuarded env.handled now st.tool (some (fill (env.substitute raw) st.args)) g.allowed
          g.caller (contains st.id g.approved) g.max_permission q in
      elim u.effect [
        | inl same ↦ (u.same_tools ∙ tools, inl same)
        | inr (x, ran, permitted, approved, caller, tool, arguments) ↦ (
          u.same_tools ∙ tools,
          inr (
            x,
            ran,
            (
              kind,
              tool,
              (raw, sym (some-injective _ _ arguments)),
              approved,
              caller,
              IsPermitted-at r q g.allowed g.max_permission x tools permitted,
            ),
          ),
        )
      ]

  registry_kept_tool :
      (st : Step) (c : Called) (p : Progress) → (after_tool st c p).0.registry ≡ p.registry
  unfolding after_tool note learn
  registry_kept_tool st (completed s) p = refl
  registry_kept_tool st (failed code) p = refl

  registry_kept_model :
      (st : Step) (a : Option Answer) (p : Progress) → (after_model st a p).0.registry ≡ p.registry
  unfolding after_model note learn
  registry_kept_model st none p = refl
  registry_kept_model st (some a) p = refl

  run_step-One :
      (kind : Kind) (st : Step) (p : Progress)
      → st.kind ≡ kind
      → p.registry.tools ≡ r.tools
      → One st p.registry (run_step env g kind st p).0.registry
  unfolding run_step
  run_step-One tool_step st p k tools =
      subst (One st p.registry) (sym (registry_kept_tool st _ _))
        (call-One st p.raw (env.clock p.reads) p.registry k tools)
  run_step-One model_step st p k tools =
      subst (One st p.registry) (sym (registry_kept_model st _ _)) (tools, inl refl)

  -- A step and what the steps behind it run.
  followed :
      (st : Step) (rest : List Step) (q next last : ToolRegistry Json)
      → One st q next
      → Issues rest next.ran last
      → Issues (st ∷ rest) q.ran last
  followed st rest q next last (tools, inl same) (kept, xs, ran, u) =
      (kept, xs, ran ∙ ap (pushed xs) same, silent u)
  followed st rest q next last (tools, inr (x, grown, v)) (kept, xs, ran, u) =
      (kept, x ∷ xs, ran ∙ ap (pushed xs) grown, issued v u)

  nothing : (steps : List Step) (q : ToolRegistry Json) → q.tools ≡ r.tools → Issues steps q.ran q
  nothing steps q tools = (tools, [], refl, stopped)

  run_from-Issues :
      (steps : List Step) (last : Option String) (p : Progress)
      → p.registry.tools ≡ r.tools
      → Issues steps p.registry.ran (run_from env g steps last p).0.registry
  unfolding run_from
  run_from-Issues [] none p tools = nothing [] p.registry tools
  run_from-Issues [] (some id) p tools = nothing [] p.registry tools
  run_from-Issues (st ∷ rest) last p tools = elim (Bool-cases (over g.max_cost p.cost)) [
    | inl h ↦ rw (h, run_from) (nothing (st ∷ rest) p.registry tools)
    | inr h ↦
        let next = (run_step env g st.kind st p).0 in
        let v = run_step-One st.kind st p refl tools in
        elim (Option-cases (run_step env g st.kind st p).1) [
          | inl e ↦
              rw (h, e, run_from)
                (followed st rest p.registry next.registry
                  (run_from env g rest (some st.id) next).0.registry v
                  (run_from-Issues rest (some st.id) next v.0))
          | inr (status, e) ↦
              rw (h, e, run_from)
                (followed st rest p.registry next.registry next.registry v
                  (nothing rest next.registry v.0))
        ]
  ]

-- The handlers that a workflow runs are run for its tool steps, in their order and at most once for
-- each: with the tool of that step and its arguments, filled with some values, for the workflow's
-- caller, marked as approved exactly if that step is among the approved ones, and within what the
-- registry permits. The tools of the registry stay the same.
pub run_workflow-Issues :
    (env : Env) (g : Grant) (steps : List Step) (input : String) (r : ToolRegistry Json)
    → Issues env g r steps r.ran (run_workflow env g steps input r).0.registry
unfolding run_workflow begin
run_workflow-Issues env g steps input r = run_from-Issues env g r steps none (begin input r) refl
