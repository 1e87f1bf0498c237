-- ===== src/Tools/Windows.antt =====
-- The table of rate windows, against a specification that keeps one exact log of calls for every
-- caller and tool (tools/registry.py, _check_rate).
use core_ai_protocol_suite.Tools.Sweeping.{
  Key, Windows, or_empty, window, Log, Refines, later-Refines, make_room-Refines, make_room-IsLive,
  make_room-none, live_logged,
}
use mathlib.Core.Logic.{ite}
use core_ai_protocol_suite.Dict
use core_ai_protocol_suite.Dict.{Dict, IsDict}
use core_ai_protocol_suite.Dict.Laws.{get-put, put-IsDict}
use core_ai_protocol_suite.Prelude.{
  All, ℕ, ◌≤◌, ◌<◌, ◌≡◌, refl, sym, ap, ◌∙◌, ◌==◌, inl, inr, Pair-discrete, Option, none, some,
  List, [], ◌∷◌, ◌++◌, length, leb, Bool-cases, arith,
}
use core_ai_protocol_suite.Tools.{
  Code, rate_limited, rate_limit_capacity, max_rate_limit_keys, prune, make_room, admit, put_window,
  check_window, check_rate,
}
use core_ai_protocol_suite.Tools.Rate.{
  recent, Rises, Rises-append, Rises-prune, recent-append, recent-prune, length-prune,
}

abbrev pub logged : Key → ℕ → Log → Log
logged key now log = λ k. ite (Pair-discrete key k) (log key ++ (now ∷ [])) (log k)

-- What the specification lets a check do: a tool without a limit is free; a call goes through, and
-- is logged, where fewer than `rate` were let through in the last minute; it is refused where that
-- many were; and one of a key without a window is refused as well where the table is full, that is where
-- as many other keys as the table may hold had a call let through in the last minute.
pub data Spec (log : Log) (key : Key) (rate now : ℕ) : Option Code → Log → Type 0 where
  unlimited : rate ≡ 0 → Spec log key rate now none log
  let_through : recent now (log key) < rate → Spec log key rate now none (logged key now log)
  limited : 1 ≤ rate → rate ≤ recent now (log key) → Spec log key rate now (some rate_limited) log
  full :
      (others : Windows)
      → IsDict Pair-discrete others
      → max_rate_limit_keys ≤ length others
      → Dict.get Pair-discrete key others ≡ none
      → All (λ e. 1 ≤ recent now (log e.0)) others
      → Spec log key rate now (some rate_limit_capacity) log

put-Refines :
    (key : Key) (now : ℕ) (ts : List ℕ) (d : Windows) (log log' : Log)
    → Refines now d log
    → Rises 0 ts now
    → ((later : ℕ) → now ≤ later → recent later ts ≡ recent later (log' key))
    → ((k : Key) → (key ≡ k → ⊥) → log' k ≡ log k)
    → Refines now (Dict.put Pair-discrete key ts d) log'
put-Refines key now ts d log log' v r a same = record {
  distinct = put-IsDict Pair-discrete key ts d v.distinct;
  rising = λ k. ground (arith, r, v.rising k, get-put Pair-discrete key k ts d);
  agrees = λ k later h. elim (Pair-discrete key k) [
    | yes e ↦ rw (sym e) (ground (arith, a later h, get-put Pair-discrete key key ts d))
    | no n ↦ ground (arith, same k n, v.agrees k later h, get-put Pair-discrete key k ts d)
  ];
}

logged_self : (key : Key) (now : ℕ) (log : Log) → logged key now log key ≡ log key ++ (now ∷ [])
logged_self key now log = ground arith

logged_other :
    (key : Key) (now : ℕ) (log : Log) (k : Key) → (key ≡ k → ⊥) → logged key now log k ≡ log k
logged_other key now log k n = ground arith

-- What the window of a key does, where the log agrees with it.
admit-Refines :
    (key : Key) (rate now : ℕ) (ts : List ℕ) (d : Windows) (log : Log)
    → 1 ≤ rate
    → Refines now d log
    → Rises 0 ts now
    → ((later : ℕ) → now ≤ later → recent later ts ≡ recent later (log key))
    → (next : Log) × Spec log key rate now (put_window key d (admit rate now ts)).1 next
      × Refines now (put_window key d (admit rate now ts)).0 next
unfolding put_window admit
admit-Refines key rate now ts d log pos v r a =
    let n : length (prune now ts) ≡ recent now (log key) =
      length-prune now 0 ts now r ∙ a now (omega arith) in
    elim (Bool-cases (leb rate (length (prune now ts)))) [
      | inl h ↦ rw h (
        log,
        limited pos (ground (arith, h, n)),
        put-Refines key now (prune now ts) d log log v (Rises-prune now 0 ts now r)
            (λ later le. recent-prune now later ts le ∙ a later le) (λ k n. refl),
      )
      | inr h ↦ rw h (
        logged key now log,
        let_through (ground (arith, h, n)),
        put-Refines key now (prune now ts ++ (now ∷ [])) d log (logged key now log) v
            (Rises-append 0 (prune now ts) now now (omega arith) (Rises-prune now 0 ts now r))
            (λ later le. omega (
              arith,
              recent-append later now (prune now ts),
              recent-append later now (log key),
              recent-prune now later ts le,
              a later le,
              ap (recent later) (logged_self key now log),
            ))
            (logged_other key now log),
      )
    ]

window_of :
    (key : Key) (d : Windows) (o : Option (List ℕ))
    → Dict.get Pair-discrete key d ≡ o
    → window key d ≡ or_empty o
window_of key d o e = ap or_empty e

check_window-Refines :
    (o : Option (List ℕ)) (key : Key) (rate now : ℕ) (d : Windows) (log : Log)
    → 1 ≤ rate
    → Dict.get Pair-discrete key d ≡ o
    → Refines now d log
    → (next : Log) × Spec log key rate now (check_window o key rate now d).1 next
      × Refines now (check_window o key rate now d).0 next
unfolding check_window
check_window-Refines (some ts) key rate now d log pos e v =
    admit-Refines key rate now ts d log pos v (rw (window_of key d (some ts) e) at (v.rising key))
      (λ later le. rw (window_of key d (some ts) e) at (v.agrees key later le))
check_window-Refines none key rate now d log pos e v =
    let q = make_room now d in
    let u = make_room-Refines now d log v in
    elim (Bool-cases (leb max_rate_limit_keys (length q))) [
      | inl h ↦ rw h (
        log,
        full q u.distinct (ground (arith, h)) (make_room-none now key d e)
            (live_logged now q log u (make_room-IsLive now d h)),
        u,
      )
      | inr h ↦ rw h (
          admit-Refines key rate now [] q log pos u (omega arith)
            (λ later le. rw (window_of key d none e) at (v.agrees key later le)))
    ]

-- At rising readings of the clock, every check of a rate does what the specification allows on the
-- exact log of the calls that were let through.
pub check_rate-Refines :
    (key : Key) (rate high now : ℕ) (d : Windows) (log : Log)
    → high ≤ now
    → Refines high d log
    → (next : Log) × Spec log key rate now (check_rate key rate now d).1 next
      × Refines now (check_rate key rate now d).0 next
unfolding check_rate
check_rate-Refines key rate high now d log le w =
    let v = later-Refines high now d log le w in
    elim (Bool-cases (rate == 0)) [
      | inl z ↦ rw z (log, unlimited (ground (arith, z)), v)
      | inr z ↦ rw z (
          check_window-Refines (Dict.get Pair-discrete key d) key rate now d log (ground (arith, z))
            refl v)
    ]

pub record Check : Type 0 where
  pub key : Key
  pub rate : ℕ
  pub now : ℕ

-- What a sequence of checks answers.
unfoldable pub answers : List Check → Windows → List (Option Code)
answers [] d = []
answers (c ∷ cs) d = let r = check_rate c.key c.rate c.now d in r.1 ∷ answers cs r.0

-- A history of the specification: its checks and its answers.
pub data History : Log → List Check → List (Option Code) → Type 0 where
  over : {log : Log} → History log [] []
  also :
      {log next : Log} {c : Check} {cs : List Check} {o : Option Code} {os : List (Option Code)}
      → Spec log c.key c.rate c.now o next
      → History next cs os
      → History log (c ∷ cs) (o ∷ os)

abbrev pub InOrder : ℕ → List Check → Type 0
InOrder high [] = Unit
InOrder high (c ∷ cs) = (high ≤ c.now) × InOrder c.now cs

pub nothing-Refines : Refines 0 [] (λ _. [])
unfolding Dict.get
nothing-Refines = record { distinct = tt; rising = λ k. omega arith; agrees = λ k later h. refl }

answers-History :
    (cs : List Check) (high : ℕ) (d : Windows) (log : Log)
    → InOrder high cs
    → Refines high d log
    → History log cs (answers cs d)
unfolding answers
answers-History [] high d log t v = over
answers-History (c ∷ cs) high d log t v =
    let (next, s, w) = check_rate-Refines c.key c.rate high c.now d log t.0 v in
    also s (answers-History cs c.now (check_rate c.key c.rate c.now d).0 next t.1 w)

-- From an empty table on, whatever callers ask for whichever tools at rising readings of the clock,
-- the answers are a history of the specification, which keeps an exact log of the calls let
-- through: where there is a rate, a call goes through only where fewer than `rate` of its caller and
-- tool did in the last minute; it is refused as rate limited only where that many did, and for
-- capacity only where 10,000 other callers and tools had a call let through in the last minute.
pub answers-refine : (cs : List Check) → InOrder 0 cs → History (λ _. []) cs (answers cs [])
answers-refine cs t = answers-History cs 0 [] (λ _. []) t nothing-Refines
