-- ===== src/Router/Stream/OneFlow.antt =====
-- What the client of a streamed request receives (coreai/router.py, _stream).
use mathlib.Core.Path.{subst}
use core_ai_protocol_suite.Retry.{Outcome, returned}
use mathlib.Core.List.{append-nil}
use core_ai_protocol_suite.Prelude.{
  ℕ, ◌+◌, ◌≡◌, refl, sym, ◌∙◌, inl, inr, ◌⊎◌, String, Bool, true, false, Option, none, some, List,
  [], ◌∷◌, ◌++◌, map, All, Bool-cases,
}
use core_ai_protocol_suite.Errors.{ErrorKind, circuit_open, Exc, classify}
use core_ai_protocol_suite.Deadline.{Deadline}
use core_ai_protocol_suite.CircuitBreaker.{allow}
use core_ai_protocol_suite.Router.{
  take_slot, provider_timeout, Router, Call, with_breaker, count_failover, attempts_for, goes_on,
  is_single,
}
use core_ai_protocol_suite.Router.Balance.{counted_balanced}
use core_ai_protocol_suite.Router.Failover.{
  Tried, begun, skipped, moved_on, Called, Stops, Exhausts, Alone, name_of, FailsOver, append_one,
  move_on, open_fails_over, goes_on-failover,
}
use core_ai_protocol_suite.Router.Stream.{
  close_stream, raised_as, open_stream, Close, ends, stalls, leaves, breaks, Body, Streamed,
  delivered, gone, interrupted, stopped, unavailable, closed_with, received, ending, stream_from,
  stream,
}
use core_ai_protocol_suite.Router.Stream.Balanced.{open_balanced}

-- The chunks of an open stream: none where it ended before the first.
abbrev pub chunks_of : Body → Option String → List String
chunks_of body none = []
chunks_of body (some first) = first ∷ body.chunks

module _ (env : ℕ → Call (Option String)) (body : ℕ → Body) (d : Deadline)
    (candidates : List String) (start : Router) where
  abbrev pub Through : Option Exc → List (String × ErrorKind) → ℕ → List String → Router → Type 0
  Through = Tried (λ name n c r. open_stream name d n c r) env candidates start

  abbrev pub Opened : ℕ → String → List String → Router → Router → Outcome (Option String) → Type 0
  Opened = Called (λ name n c r. open_stream name d n c r) env candidates start

  -- The chunks are those of the one stream that was opened, with the first chunk that its opening
  -- returned in front, and the stream ended so.
  abbrev pub FlowsFrom :
      String → List String → List (String × ErrorKind) → (Body → Option String → Type 0) → Type 0
  FlowsFrom name chunks failures Ended =
      (last : Option Exc) × (i : ℕ) × (rest : List String) × (r : Router) × (q : Router)
      × (first : Option String) × Through last failures i (name ∷ rest) r
      × Opened i name rest r q (returned first)
      × (chunks ≡ chunks_of (body i) first)
      × Ended (body i) first
      × (candidates ≡ map name_of failures ++ (name ∷ rest))
      × All FailsOver failures

  abbrev pub IsWhole : Body → Option String → Type 0
  IsWhole b first = (first ≡ none) ⊎ (b.close ≡ ends)

  abbrev pub IsLeft : Body → Option String → Type 0
  IsLeft b first = b.close ≡ leaves

  abbrev pub IsBroken : Exc → Body → Option String → Type 0
  IsBroken e b first =
      ((b.close ≡ stalls) × (e ≡ provider_timeout))
      ⊎ ((x : Exc) × (b.close ≡ breaks x) × (e ≡ raised_as x))

  -- What the client received, and the state that the request ended in.
  abbrev pub IsSingleFlow : Router × Streamed → Type 0
  IsSingleFlow (p, delivered name chunks failures) = FlowsFrom name chunks failures IsWhole
  IsSingleFlow (p, gone name chunks failures) = FlowsFrom name chunks failures IsLeft
  IsSingleFlow (p, interrupted name chunks failures e) = FlowsFrom name chunks failures (IsBroken e)
  IsSingleFlow (p, stopped e) =
      Stops (λ name n c r. open_stream name d n c r) env candidates start start.config p e
      ⊎ Alone (λ name n c r. open_stream name d n c r) env candidates start (is_single candidates) p
          e
  IsSingleFlow (p, unavailable failures) =
      Exhausts (λ name n c r. open_stream name d n c r) env candidates start (is_single candidates)
        p failures

  closed_with-IsSingleFlow :
      (close : Close) (p : Router) (last : Option Exc) (i : ℕ) (name : String) (rest : List String)
      (r q : Router) (first : String) (failures : List (String × ErrorKind))
      → (body i).close ≡ close
      → Through last failures i (name ∷ rest) r
      → Opened i name rest r q (returned (some first))
      → candidates ≡ map name_of failures ++ (name ∷ rest)
      → All FailsOver failures
      → IsSingleFlow (p, closed_with close name (first ∷ (body i).chunks) failures)
  unfolding closed_with
  closed_with-IsSingleFlow ends p last i name rest r q first failures c t u eq all =
      (last, i, rest, r, q, some first, t, u, refl, inr c, eq, all)
  closed_with-IsSingleFlow stalls p last i name rest r q first failures c t u eq all =
      (last, i, rest, r, q, some first, t, u, refl, inl (c, refl), eq, all)
  closed_with-IsSingleFlow leaves p last i name rest r q first failures c t u eq all =
      (last, i, rest, r, q, some first, t, u, refl, c, eq, all)
  closed_with-IsSingleFlow (breaks e) p last i name rest r q first failures c t u eq all =
      (last, i, rest, r, q, some first, t, u, refl, inr (e, c, refl), eq, all)

  received-IsSingleFlow :
      (first : Option String) (p : Router) (last : Option Exc) (i : ℕ) (name : String)
      (rest : List String) (r q : Router) (failures : List (String × ErrorKind))
      → Through last failures i (name ∷ rest) r
      → Opened i name rest r q (returned first)
      → candidates ≡ map name_of failures ++ (name ∷ rest)
      → All FailsOver failures
      → IsSingleFlow (p, received (body i) first name failures)
  unfolding received
  received-IsSingleFlow none p last i name rest r q failures t u eq all =
      (last, i, rest, r, q, none, t, u, refl, inl refl, eq, all)
  received-IsSingleFlow (some first) p last i name rest r q failures t u eq all =
      closed_with-IsSingleFlow (body i).close p last i name rest r q first failures refl t u eq all

  ending-IsSingleFlow :
      (single : Bool) (last : Option Exc) (failures : List (String × ErrorKind)) (i : ℕ)
      (r : Router)
      → single ≡ is_single candidates
      → Through last failures i [] r
      → candidates ≡ map name_of failures ++ []
      → All FailsOver failures
      → IsSingleFlow (r, ending single last failures)
  unfolding ending
  ending-IsSingleFlow true (some e) failures i r s t eq all = inr (sym s, failures, i, t)
  ending-IsSingleFlow true none failures i r s t eq all =
      (none, i, t, inr refl, eq ∙ append-nil (map name_of failures), all)
  ending-IsSingleFlow false last failures i r s t eq all =
      (last, i, t, inl (sym s), eq ∙ append-nil (map name_of failures), all)

  abbrev Flows : Option (Router × Streamed) → Type 0
  Flows o = (x : Router × Streamed) × (o ≡ some x) × IsSingleFlow x

  stream_from-IsSingleFlow :
      (single : Bool) (names : List String) (i : ℕ) (last : Option Exc)
      (failures : List (String × ErrorKind)) (r : Router)
      → single ≡ is_single candidates
      → r.config ≡ start.config
      → Through last failures i names r
      → candidates ≡ map name_of failures ++ names
      → All FailsOver failures
      → Flows (stream_from env body d single i last failures names r)
  unfolding stream_from with_breaker
  stream_from-IsSingleFlow single [] i last failures r o s t eq all =
      (_, refl, ending-IsSingleFlow single last failures i r o t eq all)
  stream_from-IsSingleFlow single (name ∷ rest) i last failures r o s t eq all =
      let asked = allow (env i).asked (r.breakers name) in
      elim (Bool-cases asked.1) [
        | inr h ↦ subst Flows (sym (rw (h, stream_from) refl)) (
            stream_from-IsSingleFlow single rest (i + 1) _ _ (with_breaker name asked.0 r) o s
              (skipped t h) (eq ∙ sym (move_on failures name circuit_open rest))
              (append_one failures (name, circuit_open) all open_fails_over))
        | inl h ↦ elim (open_balanced name d (attempts_for r.config rest) (env i) r h) [
          | inl (first, m, done) ↦
              let q : Router = record (take_slot name (with_breaker name asked.0 r)) {
                retry_manager = m;
              } in
              (
                (close_stream name (body i) first q, received (body i) first name failures),
                rw (h, done, stream_from) refl,
                received-IsSingleFlow first _ last i name rest r q failures t (h, done) eq all,
              )
          | inr (e, p, done, v) ↦ elim (Bool-cases (goes_on r.config e)) [
            | inl g ↦ subst Flows (sym (rw (h, done, g, stream_from) refl)) (
                stream_from-IsSingleFlow single rest (i + 1) _ _ (count_failover rest p) o
                  ((counted_balanced rest r p v).settings ∙ s) (moved_on t (h, done) g)
                  (eq ∙ sym (move_on failures name (classify e).kind rest))
                  (append_one failures (name, (classify e).kind) all
                    (goes_on-failover r.config e g)))
            | inr g ↦ (
              (p, stopped e),
              rw (h, done, g, stream_from) refl,
              inl (last, failures, i, name, rest, r, t, (h, done), rw (sym s) g),
            )
          ]
        ]
      ]

-- A streamed request always ends. What the client has received then are the chunks of one stream
-- only, in order and from the first chunk on that its opening returned: that of a candidate which its
-- breaker let through and which could be opened, and of all that is not delivered as a whole it is
-- said whether the client went or which error broke it off. Every candidate before it was passed over
-- in order, as `circuit_open` where its breaker refused, and otherwise with the kind of the error that
-- its opening raised and that the configuration moves on from. Where nothing was opened, every
-- candidate was passed over so, or an error came out that the last opening raised and that the
-- configuration does not move on from, or the failure of the only candidate.
pub stream-IsSingleFlow :
    (env : ℕ → Call (Option String)) (body : ℕ → Body) (d : Deadline) (candidates : List String)
    (r : Router)
    → (x : Router × Streamed) × (stream env body d candidates r ≡ some x)
      × IsSingleFlow env body d candidates r x
unfolding stream
stream-IsSingleFlow env body d candidates r =
    stream_from-IsSingleFlow env body d candidates r (is_single candidates) candidates 0 none [] r
      refl refl begun refl tt
