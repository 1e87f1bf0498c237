-- ===== src/Retry/Attempts.antt =====
-- What a whole run does (coreai/retry.py, run_with_retry).
use mathlib.Core.Path.{subst}
use mathlib.Core.Option.{none-ne-some}
use native.Mathlib.Nat.{add-zero}
use core_ai_protocol_suite.Prelude.{
  leb, Bool-cases, ◌⊎◌, true, false, ℕ, zero, suc, ◌+◌, ◌≤◌, ◌<◌, max, ◌≡◌, refl, sym, Option, none,
  some, [], ◌∷◌, length, All, arith, inl, inr, Option-cases,
}
use core_ai_protocol_suite.Errors.{ErrorInfo, retryable, Exc, classify}
use core_ai_protocol_suite.Deadline.{remaining, Deadline}
use core_ai_protocol_suite.Retry.{
  compute_wait, RetryConfig, Outcome, returned, raised, Outcome-cases, Attempt, Note, retry_wait,
  Run, handle, note_first, retry_loop, run_with_retry,
}

module _ {A : Type 0} (c : RetryConfig) (deadline : Option Deadline) (env : ℕ → Attempt A) where
  -- The retry decision after attempt number `n` raised `e`.
  abbrev pub decision : ℕ → Exc → Option ℕ
  decision n e = retry_wait c deadline n (classify e) (env n).draw (env n).now

  -- A retry that the run was entitled to: the attempt it names raised this error, which is of a
  -- retryable kind, attempts are left, and the wait is that of `compute_wait` and ends before the
  -- deadline.
  pub record IsDue (n : Note) : Type 0 where
    pub raised_so : (env n.attempt).outcome ≡ raised n.exc
    pub classified : n.info ≡ classify n.exc
    pub worth : retryable n.info.kind ≡ true
    pub early : n.attempt < c.max_attempts
    pub waited : compute_wait n.attempt n.info c (env n.attempt).draw ≡ some n.wait
    pub in_time :
        (d : Deadline) (end : ℕ)
        → deadline ≡ some d
        → d.end ≡ some end
        → (env n.attempt).now + n.wait < end

  -- Why attempt `n` is the last: the error is not of a retryable kind, no attempts are left, the
  -- provider asked for a longer wait than the limit, or the wait would last up to the deadline.
  abbrev pub GivesUp : ℕ → Exc → Type 0
  GivesUp n e =
      (retryable (classify e).kind ≡ false)
      ⊎ (c.max_attempts ≤ n)
      ⊎ ((s : ℕ) × ((classify e).retry_after ≡ some s) × (c.max_wait < s))
      ⊎ ((d : Deadline) × (end : ℕ) × (w : ℕ) × (deadline ≡ some d)
          × (d.end ≡ some end)
          × (compute_wait n (classify e) c (env n).draw ≡ some w)
          × (end ≤ (env n).now + w))

  -- An error comes out of attempt `n` only where there is a reason to give up.
  abbrev pub IsFinal : ℕ → Outcome A → Type 0
  IsFinal n (returned a) = Unit
  IsFinal n (raised e) = GivesUp n e

  pub record IsComplete (attempt : ℕ) (r : Run A) : Type 0 where
    pub last : r.outcome ≡ (env (attempt + length r.notes + 1)).outcome
    pub bounded : attempt + length r.notes + 1 ≤ max (attempt + 1) c.max_attempts
    pub final : IsFinal (attempt + length r.notes + 1) r.outcome
    pub due : All IsDue r.notes

  asked_too_long :
      (n draw : ℕ) (info : ErrorInfo)
      → compute_wait n info c draw ≡ none
      → (s : ℕ) × (info.retry_after ≡ some s) × (c.max_wait < s)
  unfolding compute_wait
  asked_too_long n draw info h = elim (Option-cases info.retry_after) [
    | inl e ↦ absurd (none-ne-some _ (sym (rw (e, compute_wait) at h)))
    | inr (s, e) ↦ (s, e, ground arith)
  ]

  decision-GivesUp : (n : ℕ) (e : Exc) → decision n e ≡ none → GivesUp n e
  unfolding retry_wait remaining
  decision-GivesUp n e h = elim (Bool-cases (retryable (classify e).kind)) [
    | inr r ↦ inl r
    | inl r ↦ elim (Bool-cases (leb c.max_attempts n)) [
      | inl l ↦ inr (inl (ground arith))
      | inr l ↦ elim (Option-cases (compute_wait n (classify e) c (env n).draw)) [
        | inl w ↦ inr (inr (inl (asked_too_long n (env n).draw (classify e) w)))
        | inr (w, k) ↦ elim (Option-cases deadline) [
          | inl d ↦ absurd (ground arith)
          | inr (d, m) ↦ elim (Option-cases d.end) [
            | inl z ↦ absurd (ground arith)
            | inr (end, z) ↦ inr (inr (inr (d, end, w, m, z, k, ground arith)))
          ]
        ]
      ]
    ]
  ]

  decision-IsDue :
      (n : ℕ) (e : Exc) (w : ℕ)
      → (env n).outcome ≡ raised e
      → decision n e ≡ some w
      → IsDue (record { attempt = n; exc = e; info = classify e; wait = w })
  unfolding retry_wait remaining
  decision-IsDue n e w threw h = record {
    raised_so = threw;
    classified = refl;
    worth = ground arith;
    early = ground arith;
    waited = ground arith;
    in_time = λ d end m z. ground arith;
  }

  more_rounds : (n : ℕ) (e : Exc) (w : ℕ) → decision n e ≡ some w → n < c.max_attempts
  unfolding retry_wait
  more_rounds n e w h = ground arith

  shift : (attempt n : ℕ) → attempt + suc n + 1 ≡ attempt + 1 + n + 1
  shift attempt n = omega arith

  stop_returned :
      (attempt : ℕ) (a : A)
      → (env (attempt + 1)).outcome ≡ returned a
      → IsComplete attempt (record { outcome = returned a; notes = [] })
  stop_returned attempt a h = record {
    last = rw add-zero (sym h);
    bounded = omega arith;
    final = tt;
    due = tt;
  }

  stop_raised :
      (attempt : ℕ) (e : Exc)
      → (env (attempt + 1)).outcome ≡ raised e
      → decision (attempt + 1) e ≡ none
      → IsComplete attempt (record { outcome = raised e; notes = [] })
  stop_raised attempt e h d = record {
    last = rw add-zero (sym h);
    bounded = omega arith;
    final =
        subst (λ (k : ℕ). GivesUp k e) {x = attempt + 1} {y = attempt + 0 + 1} (omega arith)
          (decision-GivesUp (attempt + 1) e d);
    due = tt;
  }

  go_on :
      (attempt : ℕ) (e : Exc) (w : ℕ) (r : Run A)
      → (env (attempt + 1)).outcome ≡ raised e
      → decision (attempt + 1) e ≡ some w
      → IsComplete (attempt + 1) r
      → IsComplete attempt (record r {
        notes = record { attempt = attempt + 1; exc = e; info = classify e; wait = w } ∷ r.notes;
      })
  go_on attempt e w r h d k = record {
    last = rw (shift attempt (length r.notes)) k.last;
    bounded = omega (arith, more_rounds (attempt + 1) e w d);
    final = rw (shift attempt (length r.notes)) k.final;
    due = (decision-IsDue (attempt + 1) e w h d, k.due);
  }

  retry_loop-IsComplete :
      (fuel attempt : ℕ)
      → c.max_attempts ≤ fuel + attempt
      → 1 ≤ fuel
      → (r : Run A) × (retry_loop fuel c deadline env attempt ≡ some r) × IsComplete attempt r
  unfolding retry_loop
  retry_loop-IsComplete zero attempt le pos = absurd (omega arith)
  retry_loop-IsComplete (suc fuel) attempt le pos =
      elim (Outcome-cases (env (attempt + 1)).outcome) [
        | inl (a, h) ↦ (
          record { outcome = returned a; notes = [] },
          rw (h, retry_loop),
          stop_returned attempt a h,
        )
        | inr (e, h) ↦ elim (Option-cases (decision (attempt + 1) e)) [
          | inl d ↦ (
            record { outcome = raised e; notes = [] },
            rw (h, d, retry_loop, handle),
            stop_raised attempt e h d,
          )
          | inr (w, d) ↦
              let (r, eq, k) =
                retry_loop-IsComplete fuel (attempt + 1) (omega arith)
                  (omega (arith, more_rounds (attempt + 1) e w d)) in
              (_, rw (h, d, eq, retry_loop, handle, note_first), go_on attempt e w r h d k)
        ]
      ]

-- Whatever the configuration, the deadline and the outcomes of the calls, the loop ends: after at
-- least one call and at most `max_attempts`, or one if that is 0, it gives what its last call gave. An
-- error comes out only where its kind is not retryable, no attempts are left, the provider asked for
-- a wait above the limit, or the wait would last up to the deadline. Every retry on the way follows
-- an attempt that raised an error of a retryable kind, with attempts left and after a wait that ends
-- before the deadline.
pub run_with_retry-IsComplete :
    {A : Type 0} (c : RetryConfig) (deadline : Option Deadline) (env : ℕ → Attempt A)
    → (r : Run A) × (run_with_retry c deadline env ≡ some r) × IsComplete c deadline env 0 r
unfolding run_with_retry
run_with_retry-IsComplete c deadline env =
    retry_loop-IsComplete c deadline env (suc c.max_attempts) 0 (omega arith) (omega arith)
