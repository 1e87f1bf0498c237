-- ===== src/Approvals/Tests.antt =====
-- Sample approvals (tools/approvals.py) and instances of the theorems.
use Prim.Native.String.{◌++◌ as append}
use core_ai_protocol_suite.Prelude.{◌+◌, ◌≤◌, ◌≡◌, refl, true, none, some, List, [], ◌∷◌}
use core_ai_protocol_suite.Approvals.{
  ApprovalStore, approved, init, fits, fingerprint, request, decide, consume,
}
use core_ai_protocol_suite.Approvals.Counts.{open_approvals}
use core_ai_protocol_suite.Approvals.Single.{
  Operation, ask, rule, use_up, perform, uses, rulings, uses-le-rulings,
}
use core_ai_protocol_suite.Approvals.Bounds.{consume_confusion}

abbrev empty : ApprovalStore
empty = record { ttl = 900; max_items = 2; items = [] }

init_refuses : init 900 0 ≡ none
unfolding init
init_refuses = refl

-- Asked for, approved and used: the second use is refused.
abbrev one_life : List Operation
one_life =
    ask 1 1 "id1" "ops" "run" "{}"
    ∷ rule 2 "id1" true "alice"
    ∷ use_up 3 "ops" "run" "{}"
    ∷ use_up 4 "ops" "run" "{}"
    ∷ []

used_once : (uses "ops|run|{}" one_life empty ≡ 1) × (rulings "ops|run|{}" one_life empty ≡ 1)
unfolding uses rulings perform request decide consume fingerprint fits
used_once = (refl, refl)

uses-le-rulings_example :
    uses "ops|run|{}" one_life empty
    ≤ open_approvals "ops|run|{}" [] + rulings "ops|run|{}" one_life empty
uses-le-rulings_example = uses-le-rulings "ops|run|{}" one_life empty

abbrev open_store : ApprovalStore
open_store = record empty {
  items =
      record {
        id = "id1";
        caller = "ops";
        tool = "deploy|run";
        arguments = "{}";
        created = 1;
        status = approved;
        decided_by = some "alice";
      }
      ∷ [];
}

-- The caller "ops|deploy" uses what was approved for "ops".
confused : (consume 5 "ops|deploy" "run" "{}" open_store).1 ≡ true
unfolding consume fingerprint fits
confused = refl

consume_confusion_example :
    consume 5 (append "ops" (append "|" "deploy")) "run" "{}" open_store
    ≡ consume 5 "ops" (append "deploy" (append "|" "run")) "{}" open_store
consume_confusion_example = consume_confusion 5 "ops" "deploy" "run" "{}" open_store
