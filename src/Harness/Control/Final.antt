-- ===== src/Harness/Control/Final.antt =====
-- Runs that have ended (harness/runner.py).
use mathlib.Core.Bool.{true≢false}
use mathlib.Core.Option.{some-injective}
use text.Mathlib.TextEquality.{eq_iff}
use core_ai_protocol_suite.Dict
use core_ai_protocol_suite.Prelude.{
  ◌≡◌, ◌≢◌, refl, sym, ap, ◌∙◌, inl, inr, String, String-discrete, Bool, true, false, Option, some,
  List, [], ◌∷◌, Bool-cases, Option-cases, arith,
}
use core_ai_protocol_suite.Harness.Store.{
  Signal, Progress, pause, cancel, kill, Run, RunStore, get, request, kill_all, is_active,
  signalled, by_cancel,
}
use core_ai_protocol_suite.Harness.Store.Control.{mapped, get-update, get-update_other}
use core_ai_protocol_suite.Harness.Runner.{
  Outside, AgentDef, Authority, State, is_finished, start_of,
}
use core_ai_protocol_suite.Harness.Loop.{execute, execute_run, write, check, begins}
use core_ai_protocol_suite.Harness.Loop.Turns.{go_on_induction}
use core_ai_protocol_suite.Harness.Control.{
  is_idle, cancel_run, pause_run, finish_idle, kill_runs, resume, finished, is_unanswered,
}

-- What may happen to the runs, in some order; a shutdown or a failure lies in the environment.
pub data Action : Type 0 where
  executes resumes : String → Option Bool → Action
  pauses cancels : String → Action
  kills : Option String → Action

finished-idle :
    (r : Run) → is_finished r ≡ true → (is_active r.status ≡ false) × (is_idle r.status ≡ false)
unfolding is_finished
finished-idle r f = ground arith

signalled-finished : (c : Signal) (r : Run) → is_finished r ≡ true → signalled c r ≡ r
signalled-finished c r f = rw ((finished-idle r f).0) refl

request-finished :
    (j id : String) (c : Signal) (s : RunStore) (r : Run)
    → get id s ≡ some r
    → is_finished r ≡ true
    → get id (request j c s) ≡ some r
unfolding request
request-finished j id c s r h f = elim (String-discrete j id) [
  | yes e ↦ rw e (
      get-update id (signalled c) s
      ∙ ap (mapped (signalled c)) h
      ∙ ap (λ (q : Run). some q) (signalled-finished c r f))
  | no ne ↦ get-update_other j id (signalled c) s ne ∙ h
]

kill_all-finished :
    (owner : Option String) (id : String) (s : RunStore) (r : Run)
    → get id s ≡ some r
    → is_finished r ≡ true
    → get id (kill_all owner s) ≡ some r
unfolding get kill_all Dict.get
kill_all-finished owner id [] r h f = h
kill_all-finished owner id ((j, q) ∷ s) r h f =
    ground (arith, kill_all-finished owner id s r, signalled-finished kill q, eq_iff j id)

finish_idle-finished :
    (owner : Option String) (id : String) (s : RunStore) (r : Run)
    → get id s ≡ some r
    → is_finished r ≡ true
    → get id (finish_idle owner s) ≡ some r
unfolding get finish_idle Dict.get
finish_idle-finished owner id [] r h f = h
finish_idle-finished owner id ((j, q) ∷ s) r h f =
    ground (arith, finish_idle-finished owner id s r, finished-idle q, eq_iff j id)

-- The row under one id reads the same in two states.
abbrev Keeps : {Args : Type 0} → String → State Args → State Args → Type 0
Keeps q s t = get q t.store ≡ get q s.store

write-Keeps :
    {Args : Type 0} (out : Outside Args) (a : AgentDef) (who : Authority) (id q : String)
    (f : Run → Run) (s : State Args)
    → id ≢ q
    → Keeps q s (write out a who id f s)
unfolding write
write-Keeps out a who id q f s ne = get-update_other id q f s.store ne

check-Keeps :
    {Args : Type 0} (out : Outside Args) (a : AgentDef) (who : Authority) (id q : String)
    (p : Progress) (s : State Args)
    → id ≢ q
    → Keeps q s (check out a who id p s).0
unfolding check request
check-Keeps out a who id q p s ne = elim (Option-cases (out.signal s.checks)) [
  | inl e ↦ rw (e, check) refl
  | inr (c, e) ↦ rw (e, check, request) (get-update_other id q (signalled c) s.store ne)
]

-- An execution writes to its own row alone.
pub execute-Keeps :
    {Args : Type 0} (out : Outside Args) (agents : String → Option AgentDef) (who : Authority)
    (id q : String) (decision : Option Bool) (s : State Args)
    → id ≢ q
    → get q (execute out agents who id decision s).0.store ≡ get q s.store
unfolding execute execute_run
execute-Keeps out agents who id q decision s ne = elim (Option-cases (get id s.store)) [
  | inl h ↦ rw (h, execute) refl
  | inr (r, h) ↦ elim (Bool-cases (is_finished r)) [
    | inl f ↦ rw (h, f, execute) refl
    | inr f ↦ elim (Option-cases (agents r.agent)) [
      | inl k ↦ rw (h, f, k, execute) refl
      | inr (a, k) ↦
          rw (h, f, k, execute)
            (go_on_induction out a who id (Keeps q) (λ t. refl) (λ t u v i j. j ∙ i)
                (λ g t. write-Keeps out a who id q g t ne)
                (λ p t. check-Keeps out a who id q p t ne) (λ ms t. refl) (λ cs ms t. refl)
                r.pending decision r.messages (start_of r)
                (write out a who id (begins out a who id) s) (λ cs p. refl)
              ∙ write-Keeps out a who id q (begins out a who id) s ne)
    ]
  ]
]

execute-finished :
    {Args : Type 0} (out : Outside Args) (agents : String → Option AgentDef) (who : Authority)
    (j id : String) (decision : Option Bool) (s : State Args) (r : Run)
    → get id s.store ≡ some r
    → is_finished r ≡ true
    → get id (execute out agents who j decision s).0.store ≡ some r
unfolding execute
execute-finished out agents who j id decision s r h f = elim (String-discrete j id) [
  | yes e ↦ rw (e, h, f, execute) h
  | no ne ↦ execute-Keeps out agents who j id decision s ne ∙ h
]

resume-finished :
    {Args : Type 0} (out : Outside Args) (agents : String → Option AgentDef) (who : Authority)
    (j id : String) (approve : Option Bool) (s : State Args) (r : Run)
    → get id s.store ≡ some r
    → is_finished r ≡ true
    → get id (resume out agents who j approve s).0.store ≡ some r
unfolding resume
resume-finished out agents who j id approve s r h f = elim (Option-cases (get j s.store)) [
  | inl k ↦ rw (k, resume) h
  | inr (q, k) ↦ elim (Bool-cases (is_unanswered q.status approve)) [
    | inl u ↦ rw (k, u, resume) h
    | inr u ↦ rw (k, u, resume) (execute-finished out agents who j id approve s r h f)
  ]
]

-- An idle run is none that has ended.
other_run :
    (j id : String) (s : RunStore) (q r : Run)
    → get j s ≡ some q
    → get id s ≡ some r
    → is_idle q.status ≡ true
    → is_finished r ≡ true
    → j ≢ id
other_run j id s q r k h u f e =
    let same : q ≡ r = some-injective _ _ (sym k ∙ ap (λ (x : String). get x s) e ∙ h) in
    true≢false (sym u ∙ ap (λ (x : Run). is_idle x.status) same ∙ (finished-idle r f).1)

cancel_run-finished :
    (j id : String) (s : RunStore) (r : Run)
    → get id s ≡ some r
    → is_finished r ≡ true
    → get id (cancel_run j s).0 ≡ some r
unfolding cancel_run
cancel_run-finished j id s r h f = elim (Option-cases (get j s)) [
  | inl k ↦ rw (k, cancel_run) (request-finished j id cancel s r h f)
  | inr (q, k) ↦ elim (Bool-cases (is_idle q.status)) [
    | inl u ↦
        rw (k, u, cancel_run)
          (get-update_other j id (finished by_cancel) s (other_run j id s q r k h u f) ∙ h)
    | inr u ↦ rw (k, u, cancel_run) (request-finished j id cancel s r h f)
  ]
]

module _ {Args : Type 0} (out : Outside Args) (agents : String → Option AgentDef)
    (who : Authority) where
  abbrev pub perform : Action → State Args → State Args
  perform (executes id decision) s = (execute out agents who id decision s).0
  perform (resumes id approve) s = (resume out agents who id approve s).0
  perform (pauses id) s = record s { store = (pause_run id s.store).0 }
  perform (cancels id) s = record s { store = (cancel_run id s.store).0 }
  perform (kills owner) s = record s { store = kill_runs owner s.store }

  abbrev pub perform_all : List Action → State Args → State Args
  perform_all [] s = s
  perform_all (x ∷ xs) s = perform_all xs (perform x s)

  perform-finished :
      (x : Action) (id : String) (s : State Args) (r : Run)
      → get id s.store ≡ some r
      → is_finished r ≡ true
      → get id (perform x s).store ≡ some r
  unfolding pause_run kill_runs
  perform-finished (executes j decision) id s r h f =
      execute-finished out agents who j id decision s r h f
  perform-finished (resumes j approve) id s r h f =
      resume-finished out agents who j id approve s r h f
  perform-finished (pauses j) id s r h f = request-finished j id pause s.store r h f
  perform-finished (cancels j) id s r h f = cancel_run-finished j id s.store r h f
  perform-finished (kills owner) id s r h f =
      finish_idle-finished owner id (kill_all owner s.store) r
        (kill_all-finished owner id s.store r h f) f

-- A run that has ended, unless by an error that can be resumed, stays for good exactly as it is,
-- whatever executions, resumptions, pauses, cancellations and kills of this run and of others follow.
pub perform_all-finished :
    {Args : Type 0} (out : Outside Args) (agents : String → Option AgentDef) (who : Authority)
    (xs : List Action) (id : String) (s : State Args) (r : Run)
    → get id s.store ≡ some r
    → is_finished r ≡ true
    → get id (perform_all out agents who xs s).store ≡ some r
perform_all-finished out agents who [] id s r h f = h
perform_all-finished out agents who (x ∷ xs) id s r h f =
    perform_all-finished out agents who xs id (perform out agents who x s) r
      (perform-finished out agents who x id s r h f) f
