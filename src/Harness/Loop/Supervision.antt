-- ===== src/Harness/Loop/Supervision.antt =====
-- Which handlers an execution of a run may cause (harness/runner.py, _tools).
use mathlib.Core.List.{append_assoc}
use mathlib.Core.Bool.{false≢true}
use mathlib.Core.Option.{some-injective, none-ne-some}
use text.Mathlib.Text.{◌==◌ as str_eq}
use core_ai_protocol_suite.Prelude.{
  ◌+◌, ◌≡◌, refl, sym, ap, ◌∙◌, ◌⊎◌, inl, inr, String, Bool, true, false, ◌&&◌, Option, none, some,
  List, [], ◌∷◌, ◌++◌, any, All, All-append, Bool-cases, Option-cases,
}
use core_ai_protocol_suite.Conversation.{ToolCall, Message}
use core_ai_protocol_suite.Tools.{
  Execution, ToolRegistry, Called, completed, failed, approval_required,
}
use core_ai_protocol_suite.Tools.Guards.{IsPermitted, call-IsGuarded}
use core_ai_protocol_suite.ToolLoop.{
  World, use_tool, if_approved, after_first, run_one, is_approval_required,
}
use core_ai_protocol_suite.Harness.Calls.{env_of, grant, attempt, one_call, run_tools}
use core_ai_protocol_suite.Harness.Store.{Run, get}
use core_ai_protocol_suite.Harness.Runner.{
  Outside, AgentDef, Authority, State, review_tool, is_finished, start_of,
}
use core_ai_protocol_suite.Harness.Loop.{execute_run, execute, write, begins, check}
use core_ai_protocol_suite.Harness.Loop.Turns.{go_on_induction}

module _ {Args : Type 0} (out : Outside Args) (a : AgentDef) (who : Authority)
    (r : ToolRegistry Args) (judged : Option ToolCall) where
  -- The execution is permitted to the agent, and either was not marked as approved and its tool is
  -- none of those that a human has to approve, or it is of the call that a human approved.
  pub record IsSupervised (x : Execution Args) : Type 0 where
    pub permitted : IsPermitted r (some a.allowed_tools) who.max_permission x
    pub own : x.caller ≡ who.caller
    pub approval :
        ((x.approved ≡ false) × (any (str_eq x.tool) a.approval_tools ≡ false))
        ⊎ ((c : ToolCall) × (judged ≡ some c)
            × (x.tool ≡ c.name)
            × (out.parse c.arguments ≡ some x.arguments))

  -- The tools are those of `r`, and only supervised executions have been added.
  abbrev pub HasGrown : World Args (Unit {0}) → World Args (Unit {0}) → Type 0
  HasGrown w v =
      (v.registry.tools ≡ r.tools)
      × (news : List (Execution Args)) × (v.registry.ran ≡ news ++ w.registry.ran)
      × All IsSupervised news

  abbrev Grows : World Args (Unit {0}) → World Args (Unit {0}) → Type 0
  Grows w v = w.registry.tools ≡ r.tools → HasGrown w v

  same : (w : World Args (Unit {0})) → Grows w w
  same w t = (t, [], refl, tt)

  chain : (w v u : World Args (Unit {0})) → Grows w v → Grows v u → Grows w u
  chain w v u f g t =
      let (t1, xs, e, k) = f t in
      let (t2, ys, d, l) = g t1 in
      (
        t2,
        ys ++ xs,
        d ∙ ap (λ (z : List (Execution Args)). ys ++ z) e ∙ sym (append_assoc ys xs w.registry.ran),
        All-append IsSupervised ys xs l k,
      )

  same_tools-IsPermitted :
      (q : ToolRegistry Args) (x : Execution Args)
      → q.tools ≡ r.tools
      → IsPermitted q (some a.allowed_tools) who.max_permission x
      → IsPermitted r (some a.allowed_tools) who.max_permission x
  same_tools-IsPermitted q x e p = record {
    tool_of = p.tool_of;
    registered = rw e at p.registered;
    named = p.named;
    within = p.within;
    fits = p.fits;
    same_permission = p.same_permission;
    approval = p.approval;
  }

  -- How a call comes to be supervised: unapproved and of no such tool, or the call approved.
  abbrev IsCleared : String → Args → Bool → Type 0
  IsCleared name args approved =
      ((approved ≡ false) × (any (str_eq name) a.approval_tools ≡ false))
      ⊎ ((c : ToolCall) × (judged ≡ some c) × (name ≡ c.name) × (out.parse c.arguments ≡ some args))

  use_tool-Grows :
      (ok : Bool) (name : String) (args : Args) (approved : Bool) (w : World Args (Unit {0}))
      → IsCleared name args approved
      → Grows w (use_tool (env_of out a who ok) (grant out a who) name args approved w).0
  unfolding use_tool
  use_tool-Grows ok name args approved w cleared t =
      let g =
        call-IsGuarded out.handled (out.clock w.reads) name (some args) (some a.allowed_tools)
          who.caller approved who.max_permission w.registry in
      elim g.effect [
        | inl e ↦ (g.same_tools ∙ t, [], e, tt)
        | inr (x, e, p, b, c, n, h) ↦ (
          g.same_tools ∙ t,
          x ∷ [],
          e,
          (
            record {
              permitted = same_tools-IsPermitted w.registry x t p;
              own = c;
              approval = rw (sym n, sym b, some-injective _ _ h) at cleared;
            },
            tt,
          ),
        )
      ]

  if_approved-Grows :
      (ok : Bool) (name : String) (args : Args) (w : World Args (Unit {0}))
      (answer : (Unit {0}) × Bool)
      → (answer.1 ≡ true → IsCleared name args true)
      → Grows w (if_approved (env_of out a who ok) (grant out a who) name args w answer).0
  unfolding if_approved
  if_approved-Grows ok name args w (s, true) cleared =
      use_tool-Grows ok name args true (record w { approvals = s }) (cleared refl)
  if_approved-Grows ok name args w (s, false) cleared = same w

  after_first-Grows :
      (ok : Bool) (name : String) (args : Args) (w v : World Args (Unit {0})) (c : Called)
      → (ok ≡ true → IsCleared name args true)
      → Grows w v
      → Grows w (after_first (env_of out a who ok) (grant out a who) name args (v, c)).0
  unfolding after_first
  after_first-Grows ok name args w v (completed text) cleared u = u
  after_first-Grows ok name args w v (failed approval_required) cleared u =
      let v2 : World Args (Unit {0}) = record v { reads = v.reads + 1 } in
      chain w v
        (if_approved (env_of out a who ok) (grant out a who) name args v2 (v.approvals, ok)).0 u
        (if_approved-Grows ok name args v2 (v.approvals, ok) cleared)
  after_first-Grows ok name args w v (failed _) cleared u = u

  -- What may be said of every run of the call, with the decision or without.
  abbrev MayRun : ToolCall → Bool → Type 0
  MayRun c ok =
      (args : Args) (b : Bool)
      → out.parse c.arguments ≡ some args
      → (b ≡ true → ok ≡ true)
      → IsCleared c.name args b

  run_one-Grows :
      (c : ToolCall) (ok : Bool) (w : World Args (Unit {0}))
      → MayRun c ok
      → Grows w (run_one (env_of out a who ok) (grant out a who) c w).0
  unfolding run_one
  run_one-Grows c ok w may = elim (Option-cases (out.parse c.arguments)) [
    | inl h ↦ rw (h, run_one) (same w)
    | inr (args, h) ↦
        let first = use_tool (env_of out a who ok) (grant out a who) c.name args false w in
        rw (h, run_one)
          (after_first-Grows ok c.name args w first.0 first.1 (λ t. may args true h (λ _. t))
            (use_tool-Grows ok c.name args false w (may args false h (λ t. absurd (false≢true t)))))
  ]

  attempt-Grows :
      (c : ToolCall) (ok : Bool) (w : World Args (Unit {0}))
      → MayRun c ok
      → Grows w (attempt out a who c ok w).0
  unfolding attempt
  attempt-Grows c ok w may =
      let s = run_one (env_of out a who ok) (grant out a who) c w in
      elim (Bool-cases (is_approval_required s.1.error_code)) [
        | inl h ↦ rw (h, attempt) (run_one-Grows c ok w may)
        | inr h ↦ rw (h, attempt) (run_one-Grows c ok w may)
      ]

  unapproved : (c : ToolCall) → any (str_eq c.name) a.approval_tools ≡ false → MayRun c false
  unapproved c h args true p k = absurd (false≢true (k refl))
  unapproved c h args false p k = inl (refl, h)

  one_call-Grows :
      (c : ToolCall) (decision : Option Bool) (w : World Args (Unit {0}))
      → (decision ≡ some true → judged ≡ some c)
      → Grows w (one_call out a who c decision w).0
  unfolding one_call
  one_call-Grows c none w j =
      elim (Bool-cases (str_eq c.name review_tool && a.ask_when_uncertain)) [
        | inl h ↦ rw (h, one_call) (same w)
        | inr h ↦ elim (Bool-cases (any (str_eq c.name) a.approval_tools)) [
          | inl k ↦ rw (h, k, one_call) (same w)
          | inr k ↦ rw (h, k, one_call) (attempt-Grows c false w (unapproved c k))
        ]
      ]
  one_call-Grows c (some true) w j =
      elim (Bool-cases (str_eq c.name review_tool && a.ask_when_uncertain)) [
        | inl h ↦ rw (h, one_call) (same w)
        | inr h ↦ rw (h, one_call) (attempt-Grows c true w (λ args b p k. inr (c, j refl, refl, p)))
      ]
  one_call-Grows c (some false) w j =
      elim (Bool-cases (str_eq c.name review_tool && a.ask_when_uncertain)) [
        | inl h ↦ rw (h, one_call) (same w)
        | inr h ↦ rw (h, one_call) (same w)
      ]

  -- The calls of one answer, of which only the first can be the one decided on.
  run_tools-Grows :
      (cs : List ToolCall) (decision : Option Bool) (ms : List Message) (w : World Args (Unit {0}))
      → (decision ≡ some true
          → (c : ToolCall) → (ds : List ToolCall) → cs ≡ c ∷ ds
          → judged ≡ some c)
      → Grows w (run_tools out a who cs decision ms w).0
  unfolding run_tools
  run_tools-Grows [] decision ms w j = same w
  run_tools-Grows (c ∷ cs) decision ms w j =
      let s = one_call out a who c decision w in
      let k = one_call-Grows c decision w (λ t. j t c cs refl) in
      elim (Option-cases s.1) [
        | inl h ↦ rw (h, run_tools) k
        | inr (m, h) ↦
            rw (h, run_tools)
              (chain w s.0 (run_tools out a who cs none (ms ++ (m ∷ [])) s.0).0 k
                (run_tools-Grows cs none (ms ++ (m ∷ [])) s.0 (λ t. absurd (none-ne-some _ t))))
      ]

-- The pending call that a decision is on, if it approves.
abbrev pub approved_call : Option (List ToolCall) → Option Bool → Option ToolCall
approved_call (some (c ∷ cs)) (some true) = some c
approved_call _ _ = none

approved_first :
    (pending : Option (List ToolCall)) (decision : Option Bool) (cs ds : List ToolCall)
    (c : ToolCall)
    → pending ≡ some cs
    → decision ≡ some true
    → cs ≡ c ∷ ds
    → approved_call pending decision ≡ some c
approved_first pending decision cs ds c p d e = rw (p, d, e) refl

-- Whatever the model asks for, an execution of a run causes only handlers of registered tools on
-- the agent's list, within the permission and with arguments that fit, and those of a destructive
-- tool or of one of the agent's approval tools only for the first pending call, and only when it
-- is resumed with the decision to approve.
pub execute-HasGrown :
    {Args : Type 0} (out : Outside Args) (agents : String → Option AgentDef) (who : Authority)
    (id : String) (decision : Option Bool) (s : State Args) (r : Run) (a : AgentDef)
    → get id s.store ≡ some r
    → agents r.agent ≡ some a
    → HasGrown out a who s.tools.registry
        (approved_call r.pending decision)
        s.tools
        (execute out agents who id decision s).0.tools
unfolding execute execute_run write check
execute-HasGrown out agents who id decision s r a h k =
    let judged = approved_call r.pending decision in
    elim (Bool-cases (is_finished r)) [
      | inl f ↦ rw (h, f, execute) (refl, [], refl, tt)
      | inr f ↦
          rw (h, f, k, execute)
            (go_on_induction out a who id
              (λ t u. Grows out a who s.tools.registry judged t.tools u.tools)
              (λ t. same out a who s.tools.registry judged t.tools)
              (λ t u v. chain out a who s.tools.registry judged t.tools u.tools v.tools)
              (λ f t. same out a who s.tools.registry judged t.tools)
              (λ p t. same out a who s.tools.registry judged t.tools)
              (λ ms t. same out a who s.tools.registry judged t.tools)
              (λ cs ms t.
                run_tools-Grows out a who s.tools.registry judged cs none ms t.tools
                  (λ e. absurd (none-ne-some _ e)))
              r.pending decision r.messages (start_of r)
              (write out a who id (begins out a who id) s)
              (λ cs p.
                run_tools-Grows out a who s.tools.registry judged cs decision r.messages s.tools
                  (λ d c ds e. approved_first r.pending decision cs ds c p d e))
              refl)
    ]
