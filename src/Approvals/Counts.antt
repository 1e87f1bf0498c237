-- ===== src/Approvals/Counts.antt =====
-- How many approvals of one call are open to be spent (tools/approvals.py).
use text.Mathlib.Text.{◌==◌ as str_eq}
use core_ai_protocol_suite.Prelude.{
  true, Bool-cases, inl, inr, ℕ, zero, suc, ◌+◌, ◌≤◌, ◌≡◌, String, Bool, ◌&&◌, Option, none, some,
  List, [], ◌∷◌, ◌++◌, arith, if◌then◌else◌,
}
use core_ai_protocol_suite.Approvals.{
  is_pending, Approval, fits, is_pending, is_approved, fresh, drop_settled, entry, decide_entry,
  spend,
}

-- 1 for an approved entry of the call with this fingerprint, 0 for any other.
abbrev pub weight : String → Approval → ℕ
weight fp a = if is_approved a.status && fits fp a then 1 else 0

-- The approvals of the call that are there to be spent.
unfoldable pub open_approvals : String → List Approval → ℕ
open_approvals fp [] = 0
open_approvals fp (a ∷ rest) = weight fp a + open_approvals fp rest

pub open_approvals-fresh :
    (fp : String) (ttl now : ℕ) (rest : List Approval)
    → open_approvals fp (fresh ttl now rest) ≤ open_approvals fp rest
unfolding open_approvals fresh
open_approvals-fresh fp ttl now [] = omega arith
open_approvals-fresh fp ttl now (a ∷ rest) = ground (arith, open_approvals-fresh fp ttl now rest)

pub open_approvals-append :
    (fp : String) (rest bs : List Approval)
    → open_approvals fp (rest ++ bs) ≡ open_approvals fp rest + open_approvals fp bs
unfolding open_approvals
open_approvals-append fp [] bs = omega arith
open_approvals-append fp (a ∷ rest) bs = omega (arith, open_approvals-append fp rest bs)

pub open_approvals-drop_settled :
    (fp : String) (n : ℕ) (rest : List Approval)
    → open_approvals fp (drop_settled n rest) ≤ open_approvals fp rest
unfolding open_approvals drop_settled
open_approvals-drop_settled fp zero rest = omega arith
open_approvals-drop_settled fp (suc n) [] = omega arith
open_approvals-drop_settled fp (suc n) (a ∷ rest) =
    ground
      (arith, open_approvals-drop_settled fp n rest, open_approvals-drop_settled fp (suc n) rest)

-- 1 where a decision to approve falls on a pending entry of the call, 0 otherwise.
abbrev pub ruling : String → Bool → Option Approval → ℕ
ruling fp approve none = 0
ruling fp approve (some a) = if approve && is_pending a.status && fits fp a then 1 else 0

-- The entry that was found, if any, waits for a decision.
abbrev pub PendingAt : Option Approval → Type 0
PendingAt none = Unit
PendingAt (some a) = is_pending a.status ≡ true

pub open_approvals-decide_entry :
    (fp id by : String) (approve : Bool) (rest : List Approval)
    → PendingAt (entry id rest)
    → open_approvals fp (decide_entry id approve by rest)
      ≤ open_approvals fp rest + ruling fp approve (entry id rest)
unfolding open_approvals decide_entry entry fits
open_approvals-decide_entry fp id by approve [] h = ground arith
open_approvals-decide_entry fp id by approve (a ∷ rest) h = elim (Bool-cases (str_eq a.id id)) [
  | inl same ↦
      let waits : is_pending a.status ≡ true = rw (same, entry) at h in
      rw (same, decide_entry, entry) (ground (arith, waits))
  | inr other ↦
      let k : PendingAt (entry id rest) = rw (other, entry) at h in
      rw (other, decide_entry, entry)
        (omega (arith, open_approvals-decide_entry fp id by approve rest k))
]

-- The loop spends exactly one, and says so, or finds none.
pub open_approvals-spend :
    (fp : String) (rest : List Approval)
    → (open_approvals fp (spend fp rest).0 + (if (spend fp rest).1 then 1 else 0)
        ≡ open_approvals fp rest)
unfolding open_approvals spend
open_approvals-spend fp [] = omega arith
open_approvals-spend fp (a ∷ rest) = ground (arith, open_approvals-spend fp rest)

-- Spending an approval of one call leaves those of every other.
pub open_approvals-spend_other :
    (fp other : String) (rest : List Approval)
    → open_approvals other (spend fp rest).0 ≤ open_approvals other rest
unfolding open_approvals spend
open_approvals-spend_other fp other [] = omega arith
open_approvals-spend_other fp other (a ∷ rest) =
    ground (arith, open_approvals-spend_other fp other rest)
