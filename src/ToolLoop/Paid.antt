-- ===== src/ToolLoop/Paid.antt =====
-- A tool loop whose `approved` is the approval store's `consume` (tools/executor.py with
-- tools/approvals.py, as api/openai_compat.py joins them).
use text.Mathlib.Text.{◌==◌ as str_eq}
use mathlib.Core.Option.{some-injective}
use core_ai_protocol_suite.Approvals.{ApprovalStore, fingerprint, consume}
use core_ai_protocol_suite.Approvals.Counts.{open_approvals}
use core_ai_protocol_suite.Approvals.Single.{open_after_consume}
use core_ai_protocol_suite.Prelude.{
  ℕ, ◌+◌, ◌≤◌, ◌≡◌, refl, sym, inl, inr, String, Bool, true, false, ◌&&◌, Option, some, List, [],
  ◌∷◌, if◌then◌else◌, Bool-cases, Option-cases, arith,
}
use core_ai_protocol_suite.Conversation.{ToolCall, Message}
use core_ai_protocol_suite.Tools.{
  approval_required, Execution, ToolRegistry, Called, completed, failed,
}
use core_ai_protocol_suite.Tools.Guards.{IsGuarded, call-IsGuarded}
use core_ai_protocol_suite.ToolLoop.Rounds.{rounds_induction}
use core_ai_protocol_suite.ToolLoop.{
  Env, Grant, World, LoopState, is_approval_required, use_tool, if_approved, after_first, run_one,
  run_calls, run_tool_loop, start,
}

module _ {Args : Type 0} (dumps : Args → String) (base : Env Args ApprovalStore) (g : Grant) where
  -- The environment in which `approved` consumes an approval, for the arguments' canonical text.
  abbrev pub env : Env Args ApprovalStore
  env = record base { approve = λ now caller name args s. consume now caller name (dumps args) s }

  -- 1 for an approved execution of the call with this fingerprint, 0 for any other.
  abbrev pub cost_of : String → Execution Args → ℕ
  cost_of fp x =
      if x.approved && str_eq (fingerprint x.caller x.tool (dumps x.arguments)) fp then 1 else 0

  unfoldable pub paid : String → List (Execution Args) → ℕ
  paid fp [] = 0
  paid fp (x ∷ xs) = cost_of fp x + paid fp xs

  -- What the world owes: executions paid for, and approvals still open.
  abbrev balance : String → World Args ApprovalStore → ℕ
  balance fp w = paid fp w.registry.ran + open_approvals fp w.approvals.items

  guarded_paid :
      (fp name : String) (args : Args) (approved : Bool) (r q : ToolRegistry Args)
      → IsGuarded r q (some g.allowed) g.caller approved g.max_permission name (some args)
      → paid fp q.ran
        ≤ paid fp r.ran
          + (if approved && str_eq (fingerprint g.caller name (dumps args)) fp then 1 else 0)
  unfolding paid
  guarded_paid fp name args approved r q v = elim v.effect [
    | inl e ↦ rw e (omega arith)
    | inr (x, e, p, a, c, n, h) ↦
        rw (e, paid, sym a, sym c, sym n, some-injective _ _ h) (omega arith)
  ]

  abbrev asked : String → Bool → String → Args → ℕ
  asked fp approved name args =
      if approved && str_eq (fingerprint g.caller name (dumps args)) fp then 1 else 0

  use_tool_paid :
      (fp name : String) (args : Args) (approved : Bool) (w : World Args ApprovalStore)
      → (paid fp (use_tool env g name args approved w).0.registry.ran
          ≤ paid fp w.registry.ran + asked fp approved name args)
        × ((use_tool env g name args approved w).0.approvals ≡ w.approvals)
  unfolding use_tool
  use_tool_paid fp name args approved w = (
    guarded_paid fp name args approved w.registry _ (
        call-IsGuarded env.handled (env.clock w.reads) name (some args) (some g.allowed) g.caller
          approved g.max_permission w.registry),
    refl,
  )

  answer_paid :
      (fp name : String) (args : Args) (w : World Args ApprovalStore)
      (answer : ApprovalStore × Bool)
      → open_approvals fp answer.0.items + asked fp answer.1 name args
        ≤ open_approvals fp w.approvals.items
      → balance fp (if_approved env g name args w answer).0 ≤ balance fp w
  unfolding if_approved
  answer_paid fp name args w (s, true) h =
      let used = use_tool_paid fp name args true (record w { approvals = s }) in
      rw used.1 (omega (arith, h, used.0))
  answer_paid fp name args w (s, false) h = omega (arith, h)

  if_approved_paid :
      (fp name : String) (args : Args) (w : World Args ApprovalStore) (now : ℕ)
      → balance fp
          (if_approved env g name args w (consume now g.caller name (dumps args) w.approvals)).0
        ≤ balance fp w
  if_approved_paid fp name args w now =
      answer_paid fp name args w (consume now g.caller name (dumps args) w.approvals)
        (ground (arith, open_after_consume fp now g.caller name (dumps args) w.approvals))

  after_first_paid :
      (fp name : String) (args : Args) (w : World Args ApprovalStore) (c : Called)
      → balance fp (after_first env g name args (w, c)).0 ≤ balance fp w
  unfolding after_first
  after_first_paid fp name args w (failed approval_required) =
      if_approved_paid fp name args (record w { reads = w.reads + 1 }) (env.clock w.reads)
  after_first_paid fp name args w (failed _) = omega arith
  after_first_paid fp name args w (completed text) = omega arith

  run_one_paid :
      (fp : String) (c : ToolCall) (w : World Args ApprovalStore)
      → balance fp (run_one env g c w).0 ≤ balance fp w
  unfolding run_one
  run_one_paid fp c w = elim (Option-cases (env.parse c.arguments)) [
    | inl h ↦ rw (h, run_one) (omega arith)
    | inr (args, h) ↦
        let first = use_tool env g c.name args false w in
        let used = use_tool_paid fp c.name args false w in
        let unpaid : balance fp first.0 ≤ balance fp w = rw used.1 (omega (arith, used.0)) in
        rw (h, run_one) (omega (arith, unpaid, after_first_paid fp c.name args first.0 first.1))
  ]

  run_calls_paid :
      (fp : String) (cs : List ToolCall) (st : LoopState Args) (w : World Args ApprovalStore)
      → balance fp (run_calls env g cs st w).0 ≤ balance fp w
  unfolding run_calls
  run_calls_paid fp [] st w = omega arith
  run_calls_paid fp (c ∷ cs) st w =
      let r = run_one env g c w in
      elim (Bool-cases (is_approval_required r.1.error_code)) [
        | inl h ↦ rw (h, run_calls) (run_one_paid fp c w)
        | inr h ↦ rw (h, run_calls) (omega (arith, run_one_paid fp c w, run_calls_paid fp cs _ r.0))
      ]

-- In a whole tool loop over an approval store, a call with some fingerprint is run with approval at
-- most as often as approvals of it were open in the store before, and each run spends one.
pub run_tool_loop-paid :
    {Args : Type 0} (dumps : Args → String) (base : Env Args ApprovalStore) (g : Grant) (limit : ℕ)
    (max_cost : Option ℕ) (messages : List Message) (w : World Args ApprovalStore) (fp : String)
    → let after = (run_tool_loop (env dumps base g) g limit max_cost messages w).0 in
      paid dumps base g fp after.registry.ran + open_approvals fp after.approvals.items
      ≤ paid dumps base g fp w.registry.ran + open_approvals fp w.approvals.items
unfolding run_tool_loop
run_tool_loop-paid dumps base g limit max_cost messages w fp =
    rounds_induction (env dumps base g) g
      (λ v u. balance dumps base g fp u ≤ balance dumps base g fp v) (λ v. omega arith)
      (λ v u x h k. omega (arith, h, k)) (run_calls_paid dumps base g fp) limit max_cost (limit + 1)
      0 (start messages) w
