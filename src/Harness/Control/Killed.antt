-- ===== src/Harness/Control/Killed.antt =====
-- What the kill switch leaves (harness/runner.py, kill).
use text.Mathlib.TextEquality.{eq_iff}
use core_ai_protocol_suite.Dict
use core_ai_protocol_suite.Prelude.{
  ◌≡◌, refl, ap, ◌∙◌, ◌⊎◌, inl, inr, String, true, false, Option, none, some, [], ◌∷◌, Bool-cases,
  arith, if◌then◌else◌,
}
use core_ai_protocol_suite.Harness.Store.{
  kill, Run, RunStore, Progress, by_kill, get, kill_all, is_active, is_of, signalled,
}
use core_ai_protocol_suite.Harness.Store.Control.{mapped}
use core_ai_protocol_suite.Harness.Runner.{Outside, AgentDef, Authority, State, limit}
use core_ai_protocol_suite.Harness.Loop.{ends, check}
use core_ai_protocol_suite.Harness.Loop.Writes.{is_running}
use core_ai_protocol_suite.Harness.Control.{is_idle, finish_idle, kill_runs, finished}

abbrev signal_of : Option String → Run → Run
signal_of owner r = if is_of owner r then signalled kill r else r

abbrev ended_of : Option String → Run → Run
ended_of owner r = if is_of owner r then (if is_idle r.status then finished by_kill r else r) else r

get-kill_all :
    (owner : Option String) (id : String) (s : RunStore)
    → get id (kill_all owner s) ≡ mapped (signal_of owner) (get id s)
unfolding get kill_all Dict.get
get-kill_all owner id [] = refl
get-kill_all owner id ((j, q) ∷ s) = ground (arith, get-kill_all owner id s, eq_iff j id)

get-finish_idle :
    (owner : Option String) (id : String) (s : RunStore)
    → get id (finish_idle owner s) ≡ mapped (ended_of owner) (get id s)
unfolding get finish_idle Dict.get
get-finish_idle owner id [] = refl
get-finish_idle owner id ((j, q) ∷ s) = ground (arith, get-finish_idle owner id s, eq_iff j id)

get-kill_runs :
    (owner : Option String) (id : String) (s : RunStore) (r : Run)
    → get id s ≡ some r
    → get id (kill_runs owner s) ≡ some (ended_of owner (signal_of owner r))
unfolding kill_runs
get-kill_runs owner id s r h =
    get-finish_idle owner id (kill_all owner s)
    ∙ ap (mapped (ended_of owner)) (get-kill_all owner id s ∙ ap (mapped (signal_of owner)) h)

-- A killed run is not idle, and is to be killed if it runs.
abbrev IsStopped : Run → Type 0
IsStopped q = (is_idle q.status ≡ false) × ((is_running q.status ≡ false) ⊎ (q.control ≡ kill))

ended_of-IsStopped :
    (owner : Option String) (q : Run)
    → is_of owner q ≡ true
    → (is_running q.status ≡ false) ⊎ (q.control ≡ kill)
    → IsStopped (ended_of owner q)
ended_of-IsStopped owner q o k = elim (Bool-cases (is_idle q.status)) [
  | inl i ↦ rw (o, i) (refl, inl refl)
  | inr i ↦ rw (o, i) (i, k)
]

is_of-control :
    (owner : Option String) (r : Run) → is_of owner (record r { control = kill }) ≡ is_of owner r
is_of-control none r = refl
is_of-control (some owner) r = refl

running-active : (r : Run) → is_active r.status ≡ false → is_running r.status ≡ false
running-active r h = ground arith

signal_of-IsStopped :
    (owner : Option String) (r : Run)
    → is_of owner r ≡ true
    → IsStopped (ended_of owner (signal_of owner r))
signal_of-IsStopped owner r o = elim (Bool-cases (is_active r.status)) [
  | inl h ↦
      rw (o, h)
        (ended_of-IsStopped owner (record r { control = kill }) (is_of-control owner r ∙ o)
          (inr refl))
  | inr h ↦ rw (o, h) (ended_of-IsStopped owner r o (inl (running-active r h)))
]

-- The switch reaches every run of the owner: afterwards it is neither paused nor waiting, and if it
-- is running, the next look at the limits, unless another signal comes first, ends it as killed.
pub kill_runs-IsStopped :
    {Args : Type 0} (out : Outside Args) (a : AgentDef) (who : Authority) (owner : Option String)
    (id : String) (p : Progress) (s : State Args) (r : Run)
    → get id s.store ≡ some r
    → is_of owner r ≡ true
    → out.signal s.checks ≡ none
    → (q : Run) × (get id (kill_runs owner s.store) ≡ some q)
      × (is_idle q.status ≡ false)
      × ((is_running q.status ≡ false)
          ⊎ ((check out a who id p (record s { store = kill_runs owner s.store })).1
              ≡ ends by_kill))
unfolding check limit
kill_runs-IsStopped out a who owner id p s r h o n =
    let k = get-kill_runs owner id s.store r h in
    let q = ended_of owner (signal_of owner r) in
    let v = signal_of-IsStopped owner r o in
    (q, k, v.0, elim v.1 [ inl e ↦ inl e | inr e ↦ inr (rw (n, check, k, limit, e) refl) ])
