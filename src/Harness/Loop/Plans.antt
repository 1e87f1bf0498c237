-- ===== src/Harness/Loop/Plans.antt =====
-- How the plan of a run ends (harness/runner.py, _plan).
use core_ai_protocol_suite.Prelude.{
  ℕ, ◌+◌, ◌≤◌, ◌≡◌, refl, ◌⊎◌, inl, inr, String, Option, none, some, List, [], ◌∷◌, Bool-cases,
  arith,
}
use core_ai_protocol_suite.Conversation.{Message}
use core_ai_protocol_suite.Harness.Context.{user_says}
use core_ai_protocol_suite.Harness.Store.{Run, Progress, saved, get}
use core_ai_protocol_suite.Harness.Runner.{Outside, AgentDef, Authority, State, spend}
use core_ai_protocol_suite.Harness.Loop.{
  Ending, returned, cut_off, broken, cut, asking, planned, make_plan,
}
use core_ai_protocol_suite.Harness.Loop.Writes.{
  Answer-cases, IsSettled, get-write, write-asked, written,
}

module _ {Args : Type 0} (out : Outside Args) (a : AgentDef) (who : Authority) (id : String) where
  -- A plan either ends the execution or leaves the run as far as it was.
  abbrev IsPlanned : ℕ → ℕ → List Message × Progress × State Args × Option Ending → Type 0
  IsPlanned step calls t =
      ((e : Ending) × (t.3 ≡ some e) × IsSettled out a who id step calls (t.2, e))
      ⊎ ((r : Run) × (t.3 ≡ none)
          × (get id t.2.store ≡ some r)
          × (t.1.step ≡ step)
          × (t.2.asked ≤ calls))

  pub make_plan-IsPlanned :
      (size : ℕ) (ms : List Message) (p : Progress) (s : State Args) (r : Run)
      → get id s.store ≡ some r
      → IsPlanned p.step (s.asked + 1) (make_plan out a who id size ms p s)
  unfolding make_plan
  make_plan-IsPlanned size [] p s r h = inl (
    returned,
    refl,
    written out a who id (broken out a who id [] p) s r returned p.step (s.asked + 1) h refl refl
        (omega arith) (omega arith),
  )
  make_plan-IsPlanned size (m ∷ ms) p s r h =
      let t = asking out a who id (user_says (out.plan_prompt size m.content) ∷ []) s in
      elim (Bool-cases (out.has_plan m.content)) [
        | inl b ↦ rw (b, make_plan) (inr (r, refl, h, refl, omega arith))
        | inr b ↦ elim (Answer-cases (out.model s.asked)) [
          | inr (inl f) ↦
              rw (b, f, make_plan)
                (inl (
                  returned,
                  refl,
                  written out a who id (broken out a who id (m ∷ ms) p) t r returned p.step
                      (s.asked + 1) h refl refl (omega arith) (omega arith),
                ))
          | inr (inr f) ↦
              rw (b, f, make_plan)
                (inl (
                  cut_off,
                  refl,
                  written out a who id (cut out a who id (m ∷ ms) p) t r cut_off p.step
                      (s.asked + 1) h refl refl (omega arith) (omega arith),
                ))
          | inl (resp, f) ↦
              let ms2 = planned out a who id m (out.strip resp.content) ∷ ms in
              rw (b, f, make_plan)
                (inr (
                  saved ms2 (spend resp p) r,
                  refl,
                  get-write out a who id (saved ms2 (spend resp p)) t r h,
                  refl,
                  omega (arith, write-asked out a who id (saved ms2 (spend resp p)) t),
                ))
        ]
      ]
