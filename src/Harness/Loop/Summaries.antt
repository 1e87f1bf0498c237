-- ===== src/Harness/Loop/Summaries.antt =====
-- The calls of the model that compaction makes (harness/runner.py, _summarizer and _model).
use core_ai_protocol_suite.Prelude.{
  true, ℕ, ◌+◌, ◌-◌, ◌≤◌, ◌<◌, ◌≡◌, refl, inl, inr, String, Bool, false, List, [], ◌∷◌, arith,
}
use core_ai_protocol_suite.Conversation.{Message}
use core_ai_protocol_suite.Harness.Context.{dropped}
use core_ai_protocol_suite.Harness.Runner.{Outside, AgentDef, Authority, State}
use core_ai_protocol_suite.Harness.Loop.{summarized, compacted}
use core_ai_protocol_suite.Harness.Loop.Writes.{Answer-cases}

-- The calls of the model in so many turns: two in a turn of an agent that summarizes, else one.
abbrev pub each : Bool → ℕ → ℕ
each true n = n + n
each false n = n

pub each_left : (b : Bool) (n m : ℕ) → n < m → each b 1 + each b (m - (n + 1)) ≡ each b (m - n)
each_left true n m h = omega (arith, h)
each_left false n m h = omega (arith, h)

module _ {Args : Type 0} (out : Outside Args) (a : AgentDef) (who : Authority) (id : String) where
  -- What the compaction before a request takes.
  pub record IsCompacted (s t : State Args) : Type 0 where
    pub same_store : t.store ≡ s.store
    pub paid_for : t.asked + 1 ≤ s.asked + each a.summarize 1

  summarized-asked :
      (b : Bool) (ds ms : List Message) (s : State Args)
      → ((summarized out a who id b ds ms s).0.store ≡ s.store)
        × ((summarized out a who id b ds ms s).0.asked + 1 ≤ s.asked + each b 1)
  unfolding summarized
  summarized-asked false ds ms s = (refl, omega arith)
  summarized-asked true [] ms s = (refl, omega arith)
  summarized-asked true (d ∷ ds) ms s = elim (Answer-cases (out.model s.asked)) [
    | inl (resp, f) ↦ rw (f, summarized) (refl, omega arith)
    | inr (inl f) ↦ rw (f, summarized) (refl, omega arith)
    | inr (inr f) ↦ rw (f, summarized) (refl, omega arith)
  ]

  pub compacted-IsCompacted :
      (ms : List Message) (s : State Args) → IsCompacted s (compacted out a who id ms s).0
  unfolding compacted
  compacted-IsCompacted ms s =
      let u = summarized-asked a.summarize (dropped out.measure ms) ms s in
      record { same_store = u.0; paid_for = u.1 }
