-- ===== src/Tasks/Kept.antt =====
-- Which tasks the store keeps (coreai/orchestrator.py, TaskStore).
use mathlib.Core.Bool.{false≢true}
use core_ai_protocol_suite.Dict
use core_ai_protocol_suite.Dict.{Dict, IsDict}
use core_ai_protocol_suite.Dict.Laws.{
  get-put, get-remove, get-move_to_end, put-IsDict, move_to_end-IsDict,
}
use core_ai_protocol_suite.Prelude.{
  ℕ, ◌≤◌, ◌≡◌, ◌≢◌, refl, sym, ◌∙◌, inl, inr, Option-cases, String, String-discrete, true, false,
  none, some, [], ◌∷◌, length, arith,
}
use core_ai_protocol_suite.Tasks.{AgentTask, terminal, TaskStore, drop_over, prune, update}

-- Every id among the finished is that of a finished task, or of none.
abbrev pub IsOrderly : TaskStore → Type 0
IsOrderly s =
    (q : String) (t : AgentTask)
    → Dict.get String-discrete q s.finished ≡ some tt
    → Dict.get String-discrete q s.tasks ≡ some t
    → terminal t.status ≡ true

drop_over-le :
    (limit : ℕ) (fs : Dict String Unit) (tasks : Dict String AgentTask)
    → length (drop_over limit fs tasks).0 ≤ limit
unfolding drop_over
drop_over-le limit [] tasks = omega arith
drop_over-le limit (f ∷ fs) tasks =
    ground (arith, drop_over-le limit fs (Dict.remove String-discrete f.0 tasks))

-- What is not among the finished ids is not dropped.
drop_over_keeps :
    (limit : ℕ) (fs : Dict String Unit) (tasks : Dict String AgentTask) (q : String)
    → Dict.get String-discrete q fs ≡ none
    → Dict.get String-discrete q (drop_over limit fs tasks).1 ≡ Dict.get String-discrete q tasks
unfolding drop_over Dict.get
drop_over_keeps limit [] tasks q h = refl
drop_over_keeps limit (f ∷ fs) tasks q h = ground (
  arith,
  drop_over_keeps limit fs (Dict.remove String-discrete f.0 tasks) q,
  get-remove String-discrete f.0 q tasks,
)

-- What is dropped adds no task and no id.
drop_over_subset :
    (limit : ℕ) (fs : Dict String Unit) (tasks : Dict String AgentTask) (q : String) (t : AgentTask)
    → Dict.get String-discrete q (drop_over limit fs tasks).1 ≡ some t
    → Dict.get String-discrete q tasks ≡ some t
unfolding drop_over
drop_over_subset limit [] tasks q t h = h
drop_over_subset limit (f ∷ fs) tasks q t h = ground (
  arith,
  drop_over_subset limit fs (Dict.remove String-discrete f.0 tasks) q t,
  get-remove String-discrete f.0 q tasks,
)

drop_over_ids :
    (limit : ℕ) (fs : Dict String Unit) (tasks : Dict String AgentTask) (q : String)
    → IsDict String-discrete fs
    → Dict.get String-discrete q (drop_over limit fs tasks).0 ≡ some tt
    → Dict.get String-discrete q fs ≡ some tt
unfolding drop_over Dict.get
drop_over_ids limit [] tasks q u h = h
drop_over_ids limit (f ∷ fs) tasks q u h =
    ground (arith, drop_over_ids limit fs (Dict.remove String-discrete f.0 tasks) q)

drop_over-IsDict :
    (limit : ℕ) (fs : Dict String Unit) (tasks : Dict String AgentTask)
    → IsDict String-discrete fs
    → IsDict String-discrete (drop_over limit fs tasks).0
unfolding drop_over
drop_over-IsDict limit [] tasks u = tt
drop_over-IsDict limit (f ∷ fs) tasks u =
    ground (arith, drop_over-IsDict limit fs (Dict.remove String-discrete f.0 tasks))

unfoldable pub noted : String → Dict String Unit → Dict String Unit
noted id d = Dict.move_to_end String-discrete id (Dict.put String-discrete id tt d)

get-noted :
    (id q : String) (d : Dict String Unit)
    → id ≢ q
    → Dict.get String-discrete q (noted id d) ≡ Dict.get String-discrete q d
unfolding noted
get-noted id q d ne = ground (
  arith,
  get-move_to_end String-discrete id q (Dict.put String-discrete id tt d),
  get-put String-discrete id q tt d,
)

unfinished_absent :
    (s : TaskStore) (q : String) (t : AgentTask)
    → IsOrderly s
    → Dict.get String-discrete q s.tasks ≡ some t
    → terminal t.status ≡ false
    → Dict.get String-discrete q s.finished ≡ none
unfinished_absent s q t v h f = elim (Option-cases (Dict.get String-discrete q s.finished)) [
  | inl n ↦ n
  | inr (u, e) ↦ absurd (false≢true (sym f ∙ v q t e h))
]

pub update_keeps :
    (id : String) (t : AgentTask) (s : TaskStore) (q : String) (k : AgentTask)
    → IsOrderly s
    → id ≢ q
    → Dict.get String-discrete q s.tasks ≡ some k
    → terminal k.status ≡ false
    → Dict.get String-discrete q (update id t s).tasks ≡ some k
unfolding update prune noted
update_keeps id t s q k v ne h f = ground (
  arith,
  get-noted id q s.finished,
  unfinished_absent s q k v h f,
  get-put String-discrete id q t s.tasks,
  drop_over_keeps s.max_finished (noted id s.finished) (Dict.put String-discrete id t s.tasks) q,
)

pub update-IsOrderly :
    (id : String) (t : AgentTask) (s : TaskStore)
    → IsOrderly s
    → IsDict String-discrete s.finished
    → (terminal t.status ≡ false → Dict.get String-discrete id s.finished ≡ none)
    → IsOrderly (update id t s)
unfolding update prune noted
update-IsOrderly id t s v u w q k hf ht = ground (
  arith,
  get-noted id q s.finished,
  get-put String-discrete id q t s.tasks,
  drop_over_subset s.max_finished (noted id s.finished) (Dict.put String-discrete id t s.tasks) q k,
  drop_over_ids s.max_finished (noted id s.finished) (Dict.put String-discrete id t s.tasks) q,
  move_to_end-IsDict String-discrete id (Dict.put String-discrete id tt s.finished),
  put-IsDict String-discrete id tt s.finished,
  v q k,
)

pub record IsSound (s : TaskStore) : Type 0 where
  pub orderly : IsOrderly s
  pub distinct : IsDict String-discrete s.finished
  pub bounded : length s.finished ≤ s.max_finished

pub update-IsSound :
    (id : String) (t : AgentTask) (s : TaskStore)
    → IsSound s
    → (terminal t.status ≡ false → Dict.get String-discrete id s.finished ≡ none)
    → IsSound (update id t s)
unfolding update prune noted
update-IsSound id t s v w = record {
  orderly = update-IsOrderly id t s v.orderly v.distinct w;
  distinct = ground (
    arith,
    v.distinct,
    drop_over-IsDict s.max_finished (noted id s.finished) (Dict.put String-discrete id t s.tasks),
    move_to_end-IsDict String-discrete id (Dict.put String-discrete id tt s.finished),
    put-IsDict String-discrete id tt s.finished,
  );
  bounded = ground (
    arith,
    v.bounded,
    drop_over-le s.max_finished (noted id s.finished) (Dict.put String-discrete id t s.tasks),
  );
}
