-- ===== src/Tasks.antt =====
-- src/coreai/orchestrator.py: the task store and the orchestrator's changes of it.
--
-- The id of a new task is given by the caller, since it is random in the source; times are natural
-- numbers. A task object is shared by reference in the source, but every change of one is followed
-- by `update`, so that it is a write of the changed record here. Context, metadata and iteration
-- counts, which no operation here reads, are left out, and so are the reports.
mod Kept
mod Runs
mod Restart
mod Tests
use text.Mathlib.Text.{◌==◌ as str_eq}
use core_ai_protocol_suite.Dict
use core_ai_protocol_suite.Dict.{Dict}
use core_ai_protocol_suite.Prelude.{
  ℕ, ◌+◌, String, String-discrete, Bool, true, false, Option, none, some, List, [], ◌∷◌, length,
  ltb, if◌then◌else◌,
}

pub data TaskStatus : Type 0 where
  pending running completed failed cancelled : TaskStatus

pub record AgentTask : Type 0 where
  pub agent_id : String
  pub objective : String
  pub priority : ℕ
  pub status : TaskStatus
  pub result : Option String
  pub error : Option String
  pub started_at : Option ℕ
  pub completed_at : Option ℕ

-- `_TERMINAL`
unfoldable pub terminal : TaskStatus → Bool
terminal pending = false
terminal running = false
terminal _ = true

-- `finished` is the `OrderedDict` of the ids of finished tasks, the oldest first.
pub record TaskStore : Type 0 where
  pub tasks : Dict String AgentTask
  pub max_finished : ℕ
  pub finished : Dict String Unit

-- The `while` loop of `_prune`.
unfoldable pub drop_over :
    ℕ → Dict String Unit → Dict String AgentTask → Dict String Unit × Dict String AgentTask
drop_over limit [] tasks = ([], tasks)
drop_over limit (f ∷ fs) tasks =
    let rest = drop_over limit fs (Dict.remove String-discrete f.0 tasks) in
    if ltb limit (length (f ∷ fs)) then rest else (f ∷ fs, tasks)

unfoldable pub prune : String → AgentTask → TaskStore → TaskStore
prune id t s =
    let noted = Dict.move_to_end String-discrete id (Dict.put String-discrete id tt s.finished) in
    let kept = drop_over s.max_finished noted s.tasks in
    if terminal t.status then record s { tasks = kept.1; finished = kept.0 } else s

unfoldable pub update : String → AgentTask → TaskStore → TaskStore
update id t s = prune id t (record s { tasks = Dict.put String-discrete id t s.tasks })

unfoldable pub delete : String → TaskStore → TaskStore
delete id s = record s {
  tasks = Dict.remove String-discrete id s.tasks;
  finished = Dict.remove String-discrete id s.finished;
}

pub record Agent : Type 0 where
  pub total_tasks : ℕ
  pub completed_tasks : ℕ
  pub failed_tasks : ℕ

pub record Orchestrator : Type 0 where
  pub store : TaskStore
  pub agents : Dict String Agent
  pub active_tasks : Dict String String

-- What a method gives: `unknown` is its ValueError, `key_error` a missing agent in the statistics.
pub data Reply : Type 0 where
  done unknown key_error type_error : Reply

unfoldable pub register_agent : String → Orchestrator → Orchestrator
register_agent agent o = record o {
  agents =
      Dict.put String-discrete agent
        (record { total_tasks = 0; completed_tasks = 0; failed_tasks = 0 }) o.agents;
}

new_task : String → String → ℕ → AgentTask
new_task agent objective priority = record {
  agent_id = agent;
  objective = objective;
  priority = priority;
  status = pending;
  result = none;
  error = none;
  started_at = none;
  completed_at = none;
}

assign_to : Option Agent → String → String → String → ℕ → Orchestrator → Orchestrator × Reply
unfolding new_task
assign_to none id agent objective priority o = (o, unknown)
assign_to (some a) id agent objective priority o = (
  record o {
    store = record (o.store) {
      tasks = Dict.put String-discrete id (new_task agent objective priority) o.store.tasks;
    };
    agents = Dict.put String-discrete agent (record a { total_tasks = a.total_tasks + 1 }) o.agents;
    active_tasks = Dict.put String-discrete id agent o.active_tasks;
  },
  done,
)

unfoldable pub assign_task : String → String → String → ℕ → Orchestrator → Orchestrator × Reply
unfolding assign_to
assign_task id agent objective priority o =
    assign_to (Dict.get String-discrete agent o.agents) id agent objective priority o

start_found : Option AgentTask → String → ℕ → Orchestrator → Orchestrator × Reply
start_found none id now o = (o, unknown)
start_found (some t) id now o = (
  record o { store = update id (record t { status = running; started_at = some now }) o.store },
  done,
)

unfoldable pub start_task : String → ℕ → Orchestrator → Orchestrator × Reply
unfolding start_found
start_task id now o = start_found (Dict.get String-discrete id o.store.tasks) id now o

-- `self.agents[agent_id][...] += 1`, for the agent that the task was active for, if any.
count_for : (Agent → Agent) → Option String → Option Agent → Orchestrator → Orchestrator × Reply
count_for f none a o = (o, done)
count_for f (some agent) none o = if str_eq agent "" then (o, done) else (o, key_error)
count_for f (some agent) (some a) o =
    if str_eq agent ""
    then (o, done)
    else (record o { agents = Dict.put String-discrete agent (f a) o.agents }, done)

agent_of : Option String → Orchestrator → Option Agent
agent_of none o = none
agent_of (some agent) o = Dict.get String-discrete agent o.agents

-- `complete_task` and `fail_task` from `update` on.
pub conclude : (Agent → Agent) → String → AgentTask → Orchestrator → Orchestrator × Reply
unfolding count_for agent_of
conclude f id t o =
    let owner = Dict.get String-discrete id o.active_tasks in
    count_for f owner (agent_of owner o) (record o {
      store = update id t o.store;
      active_tasks = Dict.remove String-discrete id o.active_tasks;
    })

-- The log line at the end formats the duration, which a task that never started has not.
logged : Option ℕ → Reply → Reply
logged none done = type_error
logged _ reply = reply

complete_found : Option AgentTask → String → String → ℕ → Orchestrator → Orchestrator × Reply
unfolding conclude logged
complete_found none id result now o = (o, unknown)
complete_found (some t) id result now o =
    let r =
      conclude (λ a. record a { completed_tasks = a.completed_tasks + 1 }) id
        (record t { status = completed; result = some result; completed_at = some now }) o in
    (r.0, logged t.started_at r.1)

unfoldable pub complete_task : String → String → ℕ → Orchestrator → Orchestrator × Reply
unfolding complete_found
complete_task id result now o =
    complete_found (Dict.get String-discrete id o.store.tasks) id result now o

fail_found : Option AgentTask → String → String → ℕ → Orchestrator → Orchestrator × Reply
unfolding conclude
fail_found none id error now o = (o, unknown)
fail_found (some t) id error now o =
    conclude (λ a. record a { failed_tasks = a.failed_tasks + 1 }) id
      (record t { status = failed; error = some error; completed_at = some now }) o

unfoldable pub fail_task : String → String → ℕ → Orchestrator → Orchestrator × Reply
unfolding fail_found
fail_task id error now o = fail_found (Dict.get String-discrete id o.store.tasks) id error now o

cancel_found : Option AgentTask → String → ℕ → Orchestrator → Orchestrator
cancel_found none id now o = o
cancel_found (some t) id now o = record o {
  store = update id (record t { status = cancelled; completed_at = some now }) o.store;
  active_tasks = Dict.remove String-discrete id o.active_tasks;
}

unfoldable pub cancel_task : String → ℕ → Orchestrator → Orchestrator
unfolding cancel_found
cancel_task id now o = cancel_found (Dict.get String-discrete id o.store.tasks) id now o

-- The loop of `unregister_agent` over the copy of the active tasks.
cancel_all : String → ℕ → Dict String String → Orchestrator → Orchestrator
unfolding cancel_task
cancel_all agent now [] o = o
cancel_all agent now ((id, a) ∷ d) o =
    cancel_all agent now d (if str_eq a agent then cancel_task id now o else o)

unfoldable pub unregister_agent : String → ℕ → Orchestrator → Orchestrator
unfolding cancel_all
unregister_agent agent now o =
    let q = cancel_all agent now o.active_tasks o in
    record q { agents = Dict.remove String-discrete agent q.agents }

-- What happens to an orchestrator, but for the removal of an agent.
pub data Event : Type 0 where
  assign : String → String → String → ℕ → Event
  start : String → ℕ → Event
  complete fail : String → String → ℕ → Event
  cancel : String → ℕ → Event
  register : String → Event

unfoldable pub step : Event → Orchestrator → Orchestrator
step (assign id agent objective priority) o = (assign_task id agent objective priority o).0
step (start id now) o = (start_task id now o).0
step (complete id result now) o = (complete_task id result now o).0
step (fail id error now) o = (fail_task id error now o).0
step (cancel id now) o = cancel_task id now o
step (register agent) o = register_agent agent o

unfoldable pub run : List Event → Orchestrator → Orchestrator
run [] o = o
run (e ∷ es) o = run es (step e o)
