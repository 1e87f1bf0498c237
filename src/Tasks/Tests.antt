-- ===== src/Tasks/Tests.antt =====
-- A store that keeps one finished task (coreai/orchestrator.py), and instances of the theorems.
use mathlib.Core.Bool.{false≢true}
use text.Mathlib.TextEquality.{eq_iff}
use core_ai_protocol_suite.Dict
use core_ai_protocol_suite.Prelude.{◌≡◌, ◌≢◌, refl, String, String-discrete, some, none, [], ◌∷◌}
use core_ai_protocol_suite.Tasks.{
  AgentTask, TaskStatus, pending, completed, Orchestrator, start_task, complete_task,
}
use core_ai_protocol_suite.Tasks.Restart.{started, restart_dropped}

abbrev task : TaskStatus → AgentTask
task status = record {
  agent_id = "writer";
  objective = "summary";
  priority = 2;
  status = status;
  result = none;
  error = none;
  started_at = none;
  completed_at = none;
}

-- Task `a` has finished, `b` and `c` are pending.
abbrev orchestrator : Orchestrator
orchestrator = record {
  store = record {
    tasks = ("a", task completed) ∷ ("b", task pending) ∷ ("c", task pending) ∷ [];
    max_finished = 1;
    finished = ("a", tt) ∷ [];
  };
  agents = [];
  active_tasks = [];
}

ab_differ : ◌≢◌ {A = String} "a" "b"
ab_differ e = false≢true ((eq_iff "a" "b").1 e)

restart_dropped_example :
    (Dict.get String-discrete "a" (start_task "a" 7 orchestrator).0.store.tasks
      ≡ some (started 7 (task completed)))
    × (Dict.get String-discrete "a"
          (complete_task "b" "text" 9 (start_task "a" 7 orchestrator).0).0.store.tasks
        ≡ none)
unfolding Dict.get String-discrete
restart_dropped_example =
    restart_dropped "a" "b" "text" 7 9 [] (task completed) (task pending) orchestrator refl refl
      ab_differ refl refl refl
