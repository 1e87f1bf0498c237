-- ===== src/Approvals/Bounds.antt =====
-- The size of the store, and what its fingerprints confuse (tools/approvals.py).
use Prim.Native.String.{◌++◌ as append}
use text.Mathlib.TextLemmas.{append_assoc}
use core_ai_protocol_suite.Prelude.{
  ℕ, zero, suc, ◌+◌, ◌-◌, ◌≤◌, ◌≡◌, ap, String, Bool, Option, none, some, List, [], ◌∷◌, length,
  length-append, arith,
}
use core_ai_protocol_suite.Approvals.{
  Approval, ApprovalStore, pending, fresh, sweep, drop_settled, add, request_swept, request, get,
  decide_entry, decide_found, decide, spend, consume, fingerprint,
}
use core_ai_protocol_suite.Approvals.Single.{Operation, ask, look, rule, use_up, perform}

length-fresh-le : (ttl now : ℕ) (rest : List Approval) → length (fresh ttl now rest) ≤ length rest
unfolding fresh
length-fresh-le ttl now [] = omega arith
length-fresh-le ttl now (a ∷ rest) = ground (arith, length-fresh-le ttl now rest)

length-drop_settled-le : (n : ℕ) (rest : List Approval) → length (drop_settled n rest) ≤ length rest
unfolding drop_settled
length-drop_settled-le zero rest = omega arith
length-drop_settled-le (suc n) [] = omega arith
length-drop_settled-le (suc n) (a ∷ rest) =
    ground (arith, length-drop_settled-le n rest, length-drop_settled-le (suc n) rest)

length-spend : (fp : String) (rest : List Approval) → length (spend fp rest).0 ≡ length rest
unfolding spend
length-spend fp [] = omega arith
length-spend fp (a ∷ rest) = ground (arith, length-spend fp rest)

length-decide_entry :
    (id by : String) (approve : Bool) (rest : List Approval)
    → length (decide_entry id approve by rest) ≡ length rest
unfolding decide_entry
length-decide_entry id by approve [] = omega arith
length-decide_entry id by approve (a ∷ rest) =
    ground (arith, length-decide_entry id by approve rest)

-- The store is within its size.
abbrev pub IsBounded : ApprovalStore → Type 0
IsBounded s = length s.items ≤ s.max_items

add-IsBounded :
    (now : ℕ) (id caller tool arguments : String) (s : ApprovalStore)
    → IsBounded s
    → IsBounded (add now id caller tool arguments s).0
unfolding add
add-IsBounded now id caller tool arguments s h =
    let a : Approval = record {
      id = id;
      caller = caller;
      tool = tool;
      arguments = arguments;
      created = now;
      status = pending;
      decided_by = none;
    } in
    ground (arith, length-append s.items (a ∷ []))

request_swept-IsBounded :
    (o : Option Approval) (now : ℕ) (id caller tool arguments : String) (s : ApprovalStore)
    → IsBounded s
    → IsBounded (request_swept o now id caller tool arguments s).0
unfolding request_swept
request_swept-IsBounded (some a) now id caller tool arguments s h = h
request_swept-IsBounded none now id caller tool arguments s h =
    add-IsBounded now id caller tool arguments
      (record s { items = drop_settled (length s.items + 1 - s.max_items) s.items })
      (omega (arith, length-drop_settled-le (length s.items + 1 - s.max_items) s.items))

-- No operation lets the store grow beyond its limit.
pub perform-IsBounded : (o : Operation) (s : ApprovalStore) → IsBounded s → IsBounded (perform o s)
unfolding perform request get decide decide_found consume
perform-IsBounded (ask now later id caller tool arguments) s h =
    request_swept-IsBounded _ later id caller tool arguments (sweep now s)
      (omega (arith, length-fresh-le s.ttl now s.items))
perform-IsBounded (look now id) s h = omega (arith, length-fresh-le s.ttl now s.items)
perform-IsBounded (rule now id approve by) s h = ground (
  arith,
  length-fresh-le s.ttl now s.items,
  length-decide_entry id by approve (fresh s.ttl now s.items),
)
perform-IsBounded (use_up now caller tool arguments) s h = omega (
  arith,
  length-fresh-le s.ttl now s.items,
  length-spend (fingerprint caller tool arguments) (fresh s.ttl now s.items),
)

-- Callers and tools are joined by a bar without any escape: a caller `a|b` that calls `c` is taken for the caller `a` that calls `b|c`,
-- whatever the arguments.
fingerprint_confusion :
    (a b c arguments : String)
    → fingerprint (append a (append "|" b)) c arguments
      ≡ fingerprint a (append b (append "|" c)) arguments
unfolding fingerprint
fingerprint_confusion a b c arguments = simp append_assoc

-- A caller `a|b` that calls `c` is let through exactly when the caller `a` that calls `b|c` would
-- be, and spends the other's approval: callers and tools are joined by a bar without any escape.
pub consume_confusion :
    (now : ℕ) (a b c arguments : String) (s : ApprovalStore)
    → consume now (append a (append "|" b)) c arguments s
      ≡ consume now a (append b (append "|" c)) arguments s
unfolding consume
consume_confusion now a b c arguments s =
    ap
      (λ (fp : String).
        let (items, done) = spend fp (fresh s.ttl now s.items) in
        (record s { items = items }, done))
      (fingerprint_confusion a b c arguments)
