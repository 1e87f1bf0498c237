-- ===== src/ToolLoop/Safety.antt =====
-- Which handlers run in a whole tool loop (tools/executor.py).
use mathlib.Core.List.{append_assoc}
use mathlib.Core.Bool.{false≢true}
use mathlib.Core.Option.{some-injective}
use core_ai_protocol_suite.Prelude.{
  ℕ, ◌+◌, ◌≡◌, refl, sym, ap, ◌∙◌, inl, inr, String, Bool, true, false, Option, some, List, [], ◌∷◌,
  ◌++◌, All, All-append, Bool-cases, Option-cases,
}
use core_ai_protocol_suite.Conversation.{ToolCall, Message}
use core_ai_protocol_suite.Tools.{
  approval_required, Execution, ToolRegistry, Called, completed, failed,
}
use core_ai_protocol_suite.Tools.Guards.{IsPermitted, IsGuarded, call-IsGuarded}
use core_ai_protocol_suite.ToolLoop.Rounds.{rounds_induction}
use core_ai_protocol_suite.ToolLoop.{
  Env, Grant, World, LoopState, is_approval_required, use_tool, if_approved, after_first, run_one,
  run_calls, run_tool_loop, start,
}

module _ {Args S : Type 0} (env : Env Args S) (g : Grant) where
  -- The callable `approved` said yes, at some time, to exactly this caller, tool and arguments.
  abbrev pub WasApproved : Execution Args → Type 0
  WasApproved x = (now : ℕ) × (s : S) × ((env.approve now x.caller x.tool x.arguments s).1 ≡ true)

  -- An execution that the loop may cause: permitted to the loop's caller by the registry, and
  -- marked as approved only if it was.
  pub record IsGranted (r : ToolRegistry Args) (x : Execution Args) : Type 0 where
    pub permitted : IsPermitted r (some g.allowed) g.max_permission x
    pub own : x.caller ≡ g.caller
    pub approval : x.approved ≡ true → WasApproved x

  -- The tools are the same, and the executions since are all granted.
  pub record Extends (r q : ToolRegistry Args) : Type 0 where
    pub same_tools : q.tools ≡ r.tools
    pub news : List (Execution Args)
    pub grown : q.ran ≡ news ++ r.ran
    pub granted : All (IsGranted r) news

  same_grants :
      (r q : ToolRegistry Args) (xs : List (Execution Args))
      → q.tools ≡ r.tools
      → All (IsGranted q) xs
      → All (IsGranted r) xs
  same_grants r q [] e a = tt
  same_grants r q (x ∷ xs) e a = (
    record {
      permitted = record {
        tool_of = a.0.permitted.tool_of;
        registered = rw e at a.0.permitted.registered;
        named = a.0.permitted.named;
        within = a.0.permitted.within;
        fits = a.0.permitted.fits;
        same_permission = a.0.permitted.same_permission;
        approval = a.0.permitted.approval;
      };
      own = a.0.own;
      approval = a.0.approval;
    },
    same_grants r q xs e a.1,
  )

  same : (r : ToolRegistry Args) → Extends r r
  same r = record { same_tools = refl; news = []; grown = refl; granted = tt }

  chain : (r q p : ToolRegistry Args) → Extends r q → Extends q p → Extends r p
  chain r q p u v = record {
    same_tools = v.same_tools ∙ u.same_tools;
    news = v.news ++ u.news;
    grown =
        v.grown
        ∙ ap (λ (l : List (Execution Args)). v.news ++ l) u.grown
        ∙ sym (append_assoc v.news u.news r.ran);
    granted =
        All-append (IsGranted r) v.news u.news (same_grants r q v.news u.same_tools v.granted)
          u.granted;
  }

  guarded-Extends :
      (r q : ToolRegistry Args) (approved : Bool) (name : String) (args : Args)
      → IsGuarded r q (some g.allowed) g.caller approved g.max_permission name (some args)
      → (approved ≡ true → (now : ℕ) × (s : S) × ((env.approve now g.caller name args s).1 ≡ true))
      → Extends r q
  guarded-Extends r q approved name args v asked = elim v.effect [
    | inl e ↦ record { same_tools = v.same_tools; news = []; grown = e; granted = tt }
    | inr (x, e, p, a, c, n, h) ↦ record {
      same_tools = v.same_tools;
      news = x ∷ [];
      grown = e;
      granted = (
        record {
          permitted = p;
          own = c;
          approval = λ t.
              let (now, s, k) = asked (sym a ∙ t) in
              (now, s, was_approved now s x name args c n (some-injective _ _ h) k);
        },
        tt,
      );
    }
  ]
    where
      was_approved :
          (now : ℕ) (s : S) (x : Execution Args) (name : String) (args : Args)
          → x.caller ≡ g.caller
          → x.tool ≡ name
          → args ≡ x.arguments
          → (env.approve now g.caller name args s).1 ≡ true
          → (env.approve now x.caller x.tool x.arguments s).1 ≡ true
      was_approved now s x name args c n h k = rw (c, n, sym h) k

  -- What a step of the loop makes of the world.
  abbrev Goes : World Args S → World Args S → Type 0
  Goes w v = Extends w.registry v.registry

  use_tool-Goes :
      (name : String) (args : Args) (approved : Bool) (w : World Args S)
      → (approved ≡ true → (now : ℕ) × (s : S) × ((env.approve now g.caller name args s).1 ≡ true))
      → Goes w (use_tool env g name args approved w).0
  unfolding use_tool
  use_tool-Goes name args approved w asked =
      guarded-Extends w.registry _ approved name args
        (call-IsGuarded env.handled (env.clock w.reads) name (some args) (some g.allowed) g.caller
          approved g.max_permission w.registry)
        asked

  if_approved-Goes :
      (name : String) (args : Args) (w : World Args S) (answer : S × Bool)
      → (answer.1 ≡ true → (now : ℕ) × (s : S) × ((env.approve now g.caller name args s).1 ≡ true))
      → Goes w (if_approved env g name args w answer).0
  unfolding if_approved
  if_approved-Goes name args w (s, true) asked =
      use_tool-Goes name args true (record w { approvals = s }) asked
  if_approved-Goes name args w (s, false) asked = same w.registry

  after_first-Goes :
      (name : String) (args : Args) (w v : World Args S) (c : Called)
      → Goes w v
      → Goes w (after_first env g name args (v, c)).0
  unfolding after_first
  after_first-Goes name args w v (completed text) u = u
  after_first-Goes name args w v (failed approval_required) u = chain w.registry v.registry _ u (
      if_approved-Goes name args (record v { reads = v.reads + 1 })
        (env.approve (env.clock v.reads) g.caller name args v.approvals)
        (λ t. (env.clock v.reads, v.approvals, t)))
  after_first-Goes name args w v (failed _) u = u

  run_one-Goes : (c : ToolCall) (w : World Args S) → Goes w (run_one env g c w).0
  unfolding run_one
  run_one-Goes c w = elim (Option-cases (env.parse c.arguments)) [
    | inl h ↦ rw (h, run_one) (same w.registry)
    | inr (args, h) ↦
        rw (h, run_one)
          (after_first-Goes c.name args w (use_tool env g c.name args false w).0
            (use_tool env g c.name args false w).1
            (use_tool-Goes c.name args false w (λ t. absurd (false≢true t))))
  ]

  run_calls-Goes :
      (cs : List ToolCall) (st : LoopState Args) (w : World Args S)
      → Goes w (run_calls env g cs st w).0
  unfolding run_calls
  run_calls-Goes [] st w = same w.registry
  run_calls-Goes (c ∷ cs) st w =
      let r = run_one env g c w in
      elim (Bool-cases (is_approval_required r.1.error_code)) [
        | inl h ↦ rw (h, run_calls) (run_one-Goes c w)
        | inr h ↦
            rw (h, run_calls)
              (chain w.registry r.0.registry _ (run_one-Goes c w) (run_calls-Goes cs _ r.0))
      ]

-- Whatever the model answers and asks for, every handler that a tool loop runs is that of a
-- registered tool on the loop's list, within its permission, with arguments that fit the schema,
-- on behalf of the loop's caller, and, if the tool is destructive, after `approved` said yes to
-- exactly that caller, tool and arguments.
pub run_tool_loop-Extends :
    {Args S : Type 0} (env : Env Args S) (g : Grant) (limit : ℕ) (max_cost : Option ℕ)
    (messages : List Message) (w : World Args S)
    → Extends env g w.registry (run_tool_loop env g limit max_cost messages w).0.registry
unfolding run_tool_loop
run_tool_loop-Extends env g limit max_cost messages w =
    rounds_induction env g (λ v u. Extends env g v.registry u.registry) (λ v. same env g v.registry)
      (λ v u x. chain env g v.registry u.registry x.registry) (run_calls-Goes env g) limit max_cost
      (limit + 1) 0 (start messages) w
