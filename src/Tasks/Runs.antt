-- ===== src/Tasks/Runs.antt =====
-- What a sequence of operations leaves in the store (coreai/orchestrator.py).
use core_ai_protocol_suite.Dict
use core_ai_protocol_suite.Prelude.{
  ◌≡◌, ◌≢◌, ◌⊎◌, String, String-discrete, false, none, some, List, [], ◌∷◌, arith,
}
use core_ai_protocol_suite.Tasks.{
  AgentTask, terminal, TaskStore, update, Orchestrator, Agent, count_for, conclude, Event, assign,
  start, complete, fail, cancel, register, step,
}
use core_ai_protocol_suite.Tasks.Kept.{IsSound}

pub conclude-store :
    (f : Agent → Agent) (id : String) (t : AgentTask) (o : Orchestrator)
    → (conclude f id t o).0.store ≡ update id t o.store
unfolding conclude count_for
conclude-store f id t o = ground arith

-- A new task has a fresh id, and a task that has finished is not started again.
abbrev pub IsAllowed : Event → TaskStore → Type 0
IsAllowed (assign id agent objective priority) s =
    (Dict.get String-discrete id s.tasks ≡ none) × (Dict.get String-discrete id s.finished ≡ none)
IsAllowed (start id now) s = Dict.get String-discrete id s.finished ≡ none
IsAllowed _ s = Unit

abbrev pub AreAllowed : List Event → Orchestrator → Type 0
AreAllowed [] o = Unit
AreAllowed (e ∷ es) o = IsAllowed e o.store × AreAllowed es (step e o)

-- The operation is not on task `q`.
abbrev pub Spares : String → Event → Type 0
Spares q (assign id agent objective priority) = id ≢ q
Spares q (start id now) = id ≢ q
Spares q (complete id result now) = id ≢ q
Spares q (fail id error now) = id ≢ q
Spares q (cancel id now) = id ≢ q
Spares q (register agent) = Unit

-- What one operation makes of the store: nothing, an update, or a new task.
abbrev Becomes : String → TaskStore → TaskStore → Type 0
Becomes id s z =
    (z ≡ s)
    ⊎ ((t : AgentTask) × (z ≡ update id t s)
        × (terminal t.status ≡ false → Dict.get String-discrete id s.finished ≡ none))

-- A sound store in which task `q` is `k` still.
abbrev Holds : String → AgentTask → TaskStore → Type 0
Holds q k s = IsSound s × (Dict.get String-discrete q s.tasks ≡ some k)
