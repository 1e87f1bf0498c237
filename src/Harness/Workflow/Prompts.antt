-- ===== src/Harness/Workflow/Prompts.antt =====
-- What a workflow shows to a model, and what it may have cost before (harness/workflow.py,
-- run_workflow).
use mathlib.Core.Path.{subst}
use mathlib.Core.Logic.{ite}
use core_ai_protocol_suite.Prelude.{
  All-map, ℕ, ◌≡◌, refl, sym, ◌⊎◌, inl, inr, String, String-discrete, Option, none, some, List, [],
  ◌∷◌, length, All, Bool-cases, Option-cases,
}
use core_ai_protocol_suite.Dict.{Dict}
use core_ai_protocol_suite.Dict
use core_ai_protocol_suite.Conversation.{Content, words, untrusted}
use core_ai_protocol_suite.Tools.{ToolRegistry, Called, completed, failed}
use core_ai_protocol_suite.Harness.Workflow.{
  begin, Json, Kind, tool_step, model_step, Step, Answer, Prompt, Env, Grant, Progress, note, learn,
  after_tool, after_model, run_step, over, run_from, run_workflow, or_empty,
}

put-All :
    {V : Type 0} (P : String × V → Type 0) (k : String) (v : V) (d : Dict String V)
    → P (k, v)
    → All P d
    → All P (Dict.put String-discrete k v d)
unfolding Dict.put
put-All P k v [] u all = (u, tt)
put-All P k v ((j, w) ∷ d) u all =
    elim (String-discrete j k)
      as (λ b. All P (ite b ((j, v) ∷ d) ((j, w) ∷ Dict.put String-discrete k v d))) [
        | yes e ↦ (subst (λ (z : String). P (z, v)) (sym e) u, all.1)
        | no n ↦ (all.0, put-All P k v d u all.1)
      ]

-- The step is one of the workflow's.
abbrev pub Among : Step → List Step → Type 0
Among s [] = ⊥
Among s (t ∷ ts) = (s ≡ t) ⊎ Among s ts

module _ (env : Env) (g : Grant) (input : String) (Own : Step → Type 0) where
  -- A value that a prompt may be filled with: the input of the workflow, what a tool gave, labelled
  -- as untrusted under the id of its step, or what the model answered to its step.
  abbrev pub IsSafe : String × Content → Type 0
  IsSafe x =
      ((x.0 ≡ "input") × (x.1 ≡ words input))
      ⊎ ((st : Step) × Own st
          × (st.id ≡ x.0)
          × (((st.kind ≡ tool_step) × (s : String) × (x.1 ≡ untrusted s st.tool))
              ⊎ ((st.kind ≡ model_step)
                  × (n : ℕ) × (a : Answer) × (env.route n ≡ some a)
                  × (x.1 ≡ words (or_empty a.content)))))

  abbrev pub AllSafe : Prompt → Type 0
  AllSafe m = All IsSafe m.values

  -- So are the values at hand, and those of every prompt that was sent.
  abbrev pub IsClean : Progress → Type 0
  IsClean p = All IsSafe p.safe × All AllSafe p.sent

  after_tool-IsClean :
      (st : Step) (c : Called) (p : Progress)
      → Own st
      → st.kind ≡ tool_step
      → IsClean p
      → IsClean (after_tool st c p).0
  unfolding after_tool note learn
  after_tool-IsClean st (completed s) p own k u = (
    put-All IsSafe st.id (untrusted s st.tool) p.safe (inr (st, own, refl, inl (k, s, refl))) u.0,
    u.1,
  )
  after_tool-IsClean st (failed code) p own k u = u

  after_model-IsClean :
      (st : Step) (a : Option Answer) (p : Progress) (n : ℕ)
      → Own st
      → st.kind ≡ model_step
      → env.route n ≡ a
      → IsClean p
      → IsClean (after_model st a p).0
  unfolding after_model note learn
  after_model-IsClean st none p n own k e u = u
  after_model-IsClean st (some a) p n own k e u = (
    put-All IsSafe st.id (words (or_empty a.content)) p.safe
        (inr (st, own, refl, inr (k, n, a, e, refl))) u.0,
    u.1,
  )

  run_step-IsClean :
      (kind : Kind) (st : Step) (p : Progress)
      → Own st
      → st.kind ≡ kind
      → IsClean p
      → IsClean (run_step env g kind st p).0
  unfolding run_step
  run_step-IsClean tool_step st p own k u = after_tool-IsClean st _ _ own k u
  run_step-IsClean model_step st p own k u =
      after_model-IsClean st (env.route (length p.sent)) _ (length p.sent) own k refl
        (u.0, (u.0, u.1))

  run_from-IsClean :
      (steps : List Step) (last : Option String) (p : Progress)
      → All Own steps
      → IsClean p
      → IsClean (run_from env g steps last p).0
  unfolding run_from
  run_from-IsClean [] none p own u = u
  run_from-IsClean [] (some id) p own u = u
  run_from-IsClean (st ∷ rest) last p own u = elim (Bool-cases (over g.max_cost p.cost)) [
    | inl h ↦ rw (h, run_from) u
    | inr h ↦
        let v = run_step-IsClean st.kind st p own.0 refl u in
        elim (Option-cases (run_step env g st.kind st p).1) [
          | inl e ↦
              rw (h, e, run_from)
                (run_from-IsClean rest (some st.id) (run_step env g st.kind st p).0 own.1 v)
          | inr (status, e) ↦ rw (h, e, run_from) v
        ]
  ]

pub All-own : (steps : List Step) → All (λ st. Among st steps) steps
All-own [] = tt
All-own (st ∷ steps) = (
  inl refl,
  All-map (λ s. Among s steps) (λ s. Among s (st ∷ steps)) (λ s h. inr h) steps (All-own steps),
)

-- Every value that a prompt of a workflow is filled with is the input of the workflow, what a tool
-- step of the workflow gave, labelled as untrusted, or what the model answered to a model step.
pub run_workflow-AllSafe :
    (env : Env) (g : Grant) (steps : List Step) (input : String) (registry : ToolRegistry Json)
    → All
        (AllSafe env g input (λ st. Among st steps))
        (run_workflow env g steps input registry).0.sent
unfolding run_workflow begin
run_workflow-AllSafe env g steps input registry =
    (run_from-IsClean env g input (λ st. Among st steps) steps none (begin input registry)
      (All-own steps) ((inl (refl, refl), tt), tt)).1
