-- ===== src/Tasks/Restart.antt =====
-- A finished task that is started again (coreai/orchestrator.py, start_task and _prune).
use core_ai_protocol_suite.Dict
use core_ai_protocol_suite.Dict.{Dict}
use core_ai_protocol_suite.Dict.Laws.{
  get-put, get-remove, get-remove_self, get-append_last, put_absent, remove-append_last,
}
use core_ai_protocol_suite.Prelude.{
  ℕ, ◌<◌, ◌≡◌, ◌≢◌, refl, ap, ◌∙◌, String, String-discrete, true, none, some, [], ◌∷◌, ◌++◌, length,
  length-append, arith,
}
use core_ai_protocol_suite.Tasks.{
  AgentTask, terminal, running, completed, TaskStore, drop_over, prune, update, Orchestrator,
  start_found, start_task, complete_found, complete_task,
}
use core_ai_protocol_suite.Tasks.Kept.{noted}
use core_ai_protocol_suite.Tasks.Runs.{conclude-store}

drop_over_absent :
    (limit : ℕ) (fs : Dict String Unit) (tasks : Dict String AgentTask) (q : String)
    → Dict.get String-discrete q tasks ≡ none
    → Dict.get String-discrete q (drop_over limit fs tasks).1 ≡ none
unfolding drop_over
drop_over_absent limit [] tasks q h = h
drop_over_absent limit (f ∷ fs) tasks q h = ground (
  arith,
  drop_over_absent limit fs (Dict.remove String-discrete f.0 tasks) q,
  get-remove String-discrete f.0 q tasks,
)

move_last :
    (q : String) (d : Dict String Unit)
    → Dict.get String-discrete q d ≡ none
    → Dict.move_to_end String-discrete q (d ++ (q, tt) ∷ []) ≡ d ++ (q, tt) ∷ []
unfolding Dict.move_to_end
move_last q d h =
    rw
      (
        get-append_last String-discrete q tt d h,
        remove-append_last String-discrete q tt d h,
        Dict.move_to_end,
      )
      refl

noted_new :
    (q : String) (d : Dict String Unit)
    → Dict.get String-discrete q d ≡ none
    → noted q d ≡ d ++ (q, tt) ∷ []
unfolding noted
noted_new q d h =
    ap (Dict.move_to_end String-discrete q) (put_absent String-discrete q tt d h) ∙ move_last q d h

oldest_dropped :
    (limit : ℕ) (id : String) (d : Dict String Unit) (tasks : Dict String AgentTask)
    → limit < length ((id, tt) ∷ d)
    → Dict.get String-discrete id (drop_over limit ((id, tt) ∷ d) tasks).1 ≡ none
unfolding drop_over
oldest_dropped limit id d tasks lt = ground (
  arith,
  drop_over_absent limit d (Dict.remove String-discrete id tasks) id,
  get-remove_self String-discrete id tasks,
)

-- Where the store holds as many finished tasks as it keeps, a new one drops the oldest.
update_drops :
    (id q : String) (d : Dict String Unit) (t : AgentTask) (s : TaskStore)
    → s.finished ≡ (id, tt) ∷ d
    → s.max_finished ≡ length s.finished
    → Dict.get String-discrete q s.finished ≡ none
    → terminal t.status ≡ true
    → Dict.get String-discrete id (update q t s).tasks ≡ none
unfolding update prune noted
update_drops id q d t s e full h f =
    let tasks = Dict.put String-discrete q t s.tasks in
    let new : noted q s.finished ≡ (id, tt) ∷ (d ++ (q, tt) ∷ []) =
      noted_new q s.finished h ∙ ap (λ (l : Dict String Unit). l ++ (q, tt) ∷ []) e in
    let longer : s.max_finished < length ((id, tt) ∷ (d ++ (q, tt) ∷ [])) =
      ground (arith, length-append d ((q, tt) ∷ []), e, full) in
    ground (arith, f, new, oldest_dropped s.max_finished id (d ++ (q, tt) ∷ []) tasks longer)

abbrev pub started : ℕ → AgentTask → AgentTask
started now t = record t { status = running; started_at = some now }

abbrev ended : String → ℕ → AgentTask → AgentTask
ended result now t = record t { status = completed; result = some result; completed_at = some now }

abbrev with_task : String → AgentTask → TaskStore → TaskStore
with_task id t s = record s { tasks = Dict.put String-discrete id t s.tasks }

start-store :
    (id : String) (now : ℕ) (t : AgentTask) (o : Orchestrator)
    → Dict.get String-discrete id o.store.tasks ≡ some t
    → (start_task id now o).0.store ≡ with_task id (started now t) o.store
unfolding start_task start_found update prune terminal
start-store id now t o h = rw (h, start_found) refl

complete-store :
    (id result : String) (now : ℕ) (t : AgentTask) (o : Orchestrator)
    → Dict.get String-discrete id o.store.tasks ≡ some t
    → (complete_task id result now o).0.store ≡ update id (ended result now t) o.store
unfolding complete_task complete_found
complete-store id result now t o h =
    rw (h, complete_found) (conclude-store _ id (ended result now t) o)

-- A finished task is started again without being taken off the finished ones: if the store holds
-- as many of them as it keeps and this one is the oldest, then it is running, and the next other
-- task that completes drops it, running as it is.
pub restart_dropped :
    (id q result : String) (now later : ℕ) (d : Dict String Unit) (t k : AgentTask)
    (o : Orchestrator)
    → o.store.finished ≡ (id, tt) ∷ d
    → o.store.max_finished ≡ length o.store.finished
    → id ≢ q
    → Dict.get String-discrete id o.store.tasks ≡ some t
    → Dict.get String-discrete q o.store.tasks ≡ some k
    → Dict.get String-discrete q o.store.finished ≡ none
    → let p = (start_task id now o).0 in
      (Dict.get String-discrete id p.store.tasks ≡ some (started now t))
      × (Dict.get String-discrete id (complete_task q result later p).0.store.tasks ≡ none)
unfolding terminal
restart_dropped id q result now later d t k o e full ne ht hk h =
    let running_task = started now t in
    let s = with_task id running_task o.store in
    let p = (start_task id now o).0 in
    let first : p.store ≡ s = start-store id now t o ht in
    let here : Dict.get String-discrete q p.store.tasks ≡ some k =
      rw first (ground (arith, get-put String-discrete id q running_task o.store.tasks)) in
    (
      rw first (ground (arith, get-put String-discrete id id running_task o.store.tasks)),
      rw (complete-store q result later k p here, first)
          (update_drops id q d (ended result later k) s e full h refl),
    )
