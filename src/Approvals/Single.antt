-- ===== src/Approvals/Single.antt =====
-- How often the approvals of a call are spent (tools/approvals.py).
use mathlib.Core.Path.{subst}
use text.Mathlib.Text.{◌==◌ as str_eq}
use text.Mathlib.TextEquality.{eq_iff}
use core_ai_protocol_suite.Prelude.{
  refl, sym, ap, ℕ, ◌+◌, ◌-◌, ◌≤◌, ◌≡◌, String, Bool, ◌&&◌, Option, none, some, List, [], ◌∷◌,
  length, arith, if◌then◌else◌, Bool-cases, inl, inr,
}
use core_ai_protocol_suite.Approvals.{
  is_pending, Approval, ApprovalStore, pending, fingerprint, fresh, sweep, open_entry, drop_settled,
  add, request_swept, request, entry, get, decide_found, decide, consume,
}
use core_ai_protocol_suite.Approvals.Counts.{
  PendingAt, open_approvals, ruling, open_approvals-fresh, open_approvals-append,
  open_approvals-drop_settled, open_approvals-decide_entry, open_approvals-spend,
  open_approvals-spend_other,
}

-- What is done to a store, with its readings of the clock.
pub data Operation : Type 0 where
  ask : ℕ → ℕ → String → String → String → String → Operation
  look : ℕ → String → Operation
  rule : ℕ → String → Bool → String → Operation
  use_up : ℕ → String → String → String → Operation

unfoldable pub perform : Operation → ApprovalStore → ApprovalStore
perform (ask now later id caller tool arguments) s =
    (request now later id caller tool arguments s).0
perform (look now id) s = (get now id s).0
perform (rule now id approve by) s = (decide now id approve by s).0
perform (use_up now caller tool arguments) s = (consume now caller tool arguments s).0

-- How often a run of operations let the call with the fingerprint through.
unfoldable pub uses : String → List Operation → ApprovalStore → ℕ
uses fp [] s = 0
uses fp (use_up now caller tool arguments ∷ os) s =
    uses fp os (perform (use_up now caller tool arguments) s)
    + (if str_eq (fingerprint caller tool arguments) fp && (consume now caller tool arguments s).1
        then 1
        else 0)
uses fp (o ∷ os) s = uses fp os (perform o s)

-- How many of the operations are decisions that approve a pending entry of the call.
unfoldable pub rulings : String → List Operation → ApprovalStore → ℕ
rulings fp [] s = 0
rulings fp (rule now id approve by ∷ os) s =
    rulings fp os (perform (rule now id approve by) s)
    + ruling fp approve (entry id (sweep now s).items)
rulings fp (o ∷ os) s = rulings fp os (perform o s)

open_after_add :
    (fp : String) (now : ℕ) (id caller tool arguments : String) (s : ApprovalStore)
    → open_approvals fp (add now id caller tool arguments s).0.items ≤ open_approvals fp s.items
unfolding add open_approvals
open_after_add fp now id caller tool arguments s = ground (
  arith,
  open_approvals-append fp s.items (
      record {
        id = id;
        caller = caller;
        tool = tool;
        arguments = arguments;
        created = now;
        status = pending;
        decided_by = none;
      }
      ∷ []),
)

open_after_swept :
    (fp : String) (o : Option Approval) (now : ℕ) (id caller tool arguments : String)
    (s : ApprovalStore) {bound : ℕ}
    → open_approvals fp s.items ≤ bound
    → open_approvals fp (request_swept o now id caller tool arguments s).0.items ≤ bound
unfolding request_swept
open_after_swept fp (some a) now id caller tool arguments s h = h
open_after_swept fp none now id caller tool arguments s h =
    let n : ℕ = length s.items + 1 - s.max_items in
    omega (
      arith,
      open_after_add fp now id caller tool arguments (record s { items = drop_settled n s.items }),
      open_approvals-drop_settled fp n s.items,
    )

open_after_request :
    (fp : String) (now later : ℕ) (id caller tool arguments : String) (s : ApprovalStore)
    → open_approvals fp (request now later id caller tool arguments s).0.items
      ≤ open_approvals fp s.items
unfolding request
open_after_request fp now later id caller tool arguments s =
    open_after_swept fp (open_entry (fingerprint caller tool arguments) (fresh s.ttl now s.items))
      later id caller tool arguments (sweep now s) (open_approvals-fresh fp s.ttl now s.items)

open_after_get :
    (fp : String) (now : ℕ) (id : String) (s : ApprovalStore)
    → open_approvals fp (get now id s).0.items ≤ open_approvals fp s.items
unfolding get
open_after_get fp now id s = open_approvals-fresh fp s.ttl now s.items

open_after_found :
    (fp id by : String) (approve : Bool) (o : Option Approval) (s : ApprovalStore)
    → entry id s.items ≡ o
    → open_approvals fp (decide_found o id approve by s).0.items
      ≤ open_approvals fp s.items + ruling fp approve o
unfolding decide_found
open_after_found fp id by approve none s e = omega arith
open_after_found fp id by approve (some a) s e = elim (Bool-cases (is_pending a.status)) [
  | inl h ↦
      let u =
        open_approvals-decide_entry fp id by approve s.items
          (subst PendingAt {x = some a} {y = entry id s.items} (sym e) h) in
      let v : ruling fp approve (entry id s.items) ≡ ruling fp approve (some a) =
        ap (ruling fp approve) e in
      rw (h, decide_found) (omega (arith, u, rw (h, ruling) at v))
  | inr h ↦ rw (h, decide_found) (omega arith)
]

open_after_decide :
    (fp : String) (now : ℕ) (id by : String) (approve : Bool) (s : ApprovalStore)
    → open_approvals fp (decide now id approve by s).0.items
      ≤ open_approvals fp s.items + ruling fp approve (entry id (sweep now s).items)
unfolding decide get
open_after_decide fp now id by approve s = omega (
  arith,
  open_approvals-fresh fp s.ttl now s.items,
  open_after_found fp id by approve (entry id (sweep now s).items) (sweep now s) refl,
)

-- Whether the run let this one operation's call through, for the call with the fingerprint.
abbrev pub granted : String → ℕ → String → String → String → ApprovalStore → ℕ
granted fp now caller tool arguments s =
    if str_eq (fingerprint caller tool arguments) fp && (consume now caller tool arguments s).1
    then 1
    else 0

pub open_after_consume :
    (fp : String) (now : ℕ) (caller tool arguments : String) (s : ApprovalStore)
    → open_approvals fp (consume now caller tool arguments s).0.items
        + granted fp now caller tool arguments s
      ≤ open_approvals fp s.items
unfolding consume
open_after_consume fp now caller tool arguments s =
    elim (Bool-cases (str_eq (fingerprint caller tool arguments) fp)) [
      | inl same ↦
          let e : fingerprint caller tool arguments ≡ fp = (eq_iff _ _).0 same in
          rw (same, e)
            (omega (
              arith,
              open_approvals-spend fp (fresh s.ttl now s.items),
              open_approvals-fresh fp s.ttl now s.items,
            ))
      | inr other ↦ rw other (
          omega (
            arith,
            open_approvals-spend_other (fingerprint caller tool arguments) fp
                (fresh s.ttl now s.items),
            open_approvals-fresh fp s.ttl now s.items,
          ))
    ]

-- Whatever is asked, looked at, decided and consumed, in any order and at any times: a call is let
-- through at most as often as a decision approved an entry of it that was pending, on top of
-- the approvals of it that were open before. (A call counts here by its fingerprint.)
pub uses-le-rulings :
    (fp : String) (os : List Operation) (s : ApprovalStore)
    → uses fp os s ≤ open_approvals fp s.items + rulings fp os s
unfolding uses rulings perform
uses-le-rulings fp [] s = omega arith
uses-le-rulings fp (ask now later id caller tool arguments ∷ os) s = omega (
  arith,
  uses-le-rulings fp os (request now later id caller tool arguments s).0,
  open_after_request fp now later id caller tool arguments s,
)
uses-le-rulings fp (look now id ∷ os) s =
    omega (arith, uses-le-rulings fp os (get now id s).0, open_after_get fp now id s)
uses-le-rulings fp (rule now id approve by ∷ os) s = omega (
  arith,
  uses-le-rulings fp os (decide now id approve by s).0,
  open_after_decide fp now id by approve s,
)
uses-le-rulings fp (use_up now caller tool arguments ∷ os) s = omega (
  arith,
  uses-le-rulings fp os (consume now caller tool arguments s).0,
  open_after_consume fp now caller tool arguments s,
)
