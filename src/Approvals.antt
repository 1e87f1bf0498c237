-- ===== src/Approvals.antt =====
-- src/tools/approvals.py: human approval for destructive tool calls.
--
-- `arguments` is the canonical JSON text that `json.dumps` makes of the arguments, and the id of a
-- new approval is given by the caller, since it is random in the source. Times are natural
-- numbers. The callback `on_request` cannot change the store and is left out.
pub mod Counts
pub mod Single
mod Bounds
mod Tests
use Prim.Native.String.{◌++◌ as append}
use text.Mathlib.Text.{◌==◌ as str_eq}
use core_ai_protocol_suite.Prelude.{
  ℕ, zero, suc, ◌+◌, ◌-◌, String, Bool, true, false, ◌&&◌, Option, none, some, List, [], ◌∷◌, ◌++◌,
  ltb, leb, length, if◌then◌else◌,
}

pub data Status : Type 0 where
  pending approved denied used : Status

pub record Approval : Type 0 where
  pub id : String
  pub caller : String
  pub tool : String
  pub arguments : String
  pub created : ℕ
  pub status : Status
  pub decided_by : Option String

pub record ApprovalStore : Type 0 where
  pub ttl : ℕ
  pub max_items : ℕ
  pub items : List Approval

-- `__post_init__`; `none` is its ValueError.
unfoldable pub init : ℕ → ℕ → Option ApprovalStore
init ttl max_items =
    if ltb ttl 1
    then none
    else if ltb max_items 1
    then none
    else some (record { ttl = ttl; max_items = max_items; items = [] })

-- `_fingerprint`
unfoldable pub fingerprint : String → String → String → String
fingerprint caller tool arguments = append caller (append "|" (append tool (append "|" arguments)))

unfoldable pub fits : String → Approval → Bool
fits fp a = str_eq (fingerprint a.caller a.tool a.arguments) fp

abbrev pub is_pending : Status → Bool
is_pending pending = true
is_pending _ = false

abbrev pub is_approved : Status → Bool
is_approved approved = true
is_approved _ = false

abbrev pub is_settled : Status → Bool
is_settled denied = true
is_settled used = true
is_settled _ = false

-- The entries that are not older than their time to live.
pub fresh : ℕ → ℕ → List Approval → List Approval
fresh ttl now [] = []
fresh ttl now (a ∷ rest) =
    let later = fresh ttl now rest in if leb (a.created + ttl) now then later else a ∷ later

unfoldable pub sweep : ℕ → ApprovalStore → ApprovalStore
unfolding fresh
sweep now s = record s { items = fresh s.ttl now s.items }

-- The first loop of `request`: an open entry for exactly this call.
abbrev pub is_open : Status → Bool
is_open pending = true
is_open approved = true
is_open _ = false

pub open_entry : String → List Approval → Option Approval
open_entry fp [] = none
open_entry fp (a ∷ rest) =
    let later = open_entry fp rest in if is_open a.status && fits fp a then some a else later

-- The second loop: settled entries go, the oldest first. It stops as soon as there is room for one
-- more, which is when `length items + 1 - max_items` of them are gone.
pub drop_settled : ℕ → List Approval → List Approval
drop_settled zero rest = rest
drop_settled (suc n) [] = []
drop_settled (suc n) (a ∷ rest) = elim (is_settled a.status) [
  | true ↦ drop_settled n rest
  | false ↦ a ∷ drop_settled (suc n) rest
]

pub data Answer : Type 0 where
  found : Approval → Answer
  too_many : Answer

pub add : ℕ → String → String → String → String → ApprovalStore → ApprovalStore × Answer
add now id caller tool arguments s =
    if leb s.max_items (length s.items)
    then (s, too_many)
    else let a : Approval = record {
      id = id;
      caller = caller;
      tool = tool;
      arguments = arguments;
      created = now;
      status = pending;
      decided_by = none;
    } in
      (record s { items = s.items ++ a ∷ [] }, found a)

pub request_swept :
    Option Approval → ℕ → String → String → String → String → ApprovalStore → ApprovalStore × Answer
unfolding add drop_settled
request_swept (some a) now id caller tool arguments s = (s, found a)
request_swept none now id caller tool arguments s =
    add now id caller tool arguments
      (record s { items = drop_settled (length s.items + 1 - s.max_items) s.items })

-- `now` is the reading of `_sweep`, `later` that of the new entry.
unfoldable pub request :
    ℕ → ℕ → String → String → String → String → ApprovalStore → ApprovalStore × Answer
unfolding sweep open_entry request_swept
request now later id caller tool arguments s =
    let swept = sweep now s in
    request_swept (open_entry (fingerprint caller tool arguments) swept.items) later id caller tool
      arguments swept

pub entry : String → List Approval → Option Approval
entry id [] = none
entry id (a ∷ rest) = if str_eq a.id id then some a else entry id rest

unfoldable pub get : ℕ → String → ApprovalStore → ApprovalStore × Option Approval
unfolding sweep entry
get now id s = let swept = sweep now s in (swept, entry id swept.items)

-- The entry with the id is decided, where it stands.
pub decide_entry : String → Bool → String → List Approval → List Approval
decide_entry id approve by [] = []
decide_entry id approve by (a ∷ rest) =
    if str_eq a.id id
    then record a { status = if approve then approved else denied; decided_by = some by } ∷ rest
    else a ∷ decide_entry id approve by rest

pub data Decision : Type 0 where
  decided key_error value_error : Decision

pub decide_found :
    Option Approval → String → Bool → String → ApprovalStore → ApprovalStore × Decision
unfolding decide_entry
decide_found none id approve by s = (s, key_error)
decide_found (some a) id approve by s =
    if is_pending a.status
    then (record s { items = decide_entry id approve by s.items }, decided)
    else (s, value_error)

unfoldable pub decide : ℕ → String → Bool → String → ApprovalStore → ApprovalStore × Decision
unfolding get decide_found
decide now id approve by s = let (swept, a) = get now id s in decide_found a id approve by swept

-- The loop of `consume`: the first approved entry for exactly this call is spent.
pub spend : String → List Approval → List Approval × Bool
spend fp [] = ([], false)
spend fp (a ∷ rest) =
    let later = spend fp rest in
    if is_approved a.status && fits fp a
    then (record a { status = used } ∷ rest, true)
    else (a ∷ later.0, later.1)

unfoldable pub consume : ℕ → String → String → String → ApprovalStore → ApprovalStore × Bool
unfolding sweep spend
consume now caller tool arguments s =
    let swept = sweep now s in
    let (items, done) = spend (fingerprint caller tool arguments) swept.items in
    (record swept { items = items }, done)
