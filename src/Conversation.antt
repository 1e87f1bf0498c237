-- ===== src/Conversation.antt =====
-- src/providers/base.py: messages, and `validate_conversation`.
--
-- `other` is any role that is not among VALID_ROLES. The content of a message is text, or what the
-- tool executor builds: the output of a tool in its untrusted wrapper, the code of a refusal, or
-- an old output cut short by the harness.
-- Images are left out.
pub mod Appending
use text.Mathlib.Text.{◌==◌ as str_eq}
use core_ai_protocol_suite.Prelude.{
  ℕ, String, Bool, true, false, not, Option, none, some, List, [], ◌∷◌, if◌then◌else◌,
}
use core_ai_protocol_suite.Tools.{Code}

pub data Role : Type 0 where
  system user assistant tool other : Role

pub record ToolCall : Type 0 where
  pub id : String
  pub name : String
  pub arguments : String

pub data Content : Type 0 where
  words : String → Content
  untrusted : String → String → Content
  refused : Code → Content
  shortened : Content → Content

pub record Message : Type 0 where
  pub role : Role
  pub content : Content
  pub tool_calls : List ToolCall
  pub tool_call_id : Option String

pub data Fault : Type 0 where
  no_messages invalid_role only_system bad_first bad_last nameless : Fault

abbrev pub is_system : Message → Bool
is_system m = elim m.role [ system ↦ true | _ ↦ false ]

abbrev pub is_known : Message → Bool
is_known m = elim m.role [ other ↦ false | _ ↦ true ]

abbrev pub is_user : Message → Bool
is_user m = elim m.role [ user ↦ true | _ ↦ false ]

abbrev pub can_end : Message → Bool
can_end m = elim m.role [ user ↦ true | tool ↦ true | _ ↦ false ]

-- `m.tool_call_id` is a text that is not empty.
abbrev pub names_call : Option String → Bool
names_call none = false
names_call (some id) = not (str_eq id "")

abbrev pub is_named : Message → Bool
is_named m = elim m.role [ tool ↦ names_call m.tool_call_id | _ ↦ true ]

abbrev pub every : {A : Type 0} → (A → Bool) → List A → Bool
every p [] = true
every p (x ∷ xs) = elim (p x) [ true ↦ every p xs | false ↦ false ]

-- The messages that are not system messages.
unfoldable pub spoken : List Message → List Message
spoken [] = []
spoken (m ∷ ms) = let rest = spoken ms in if is_system m then rest else m ∷ rest

unfoldable pub last_of : Message → List Message → Message
last_of m [] = m
last_of m (n ∷ ms) = last_of n ms

unfoldable pub check_spoken : List Message → Option Fault
check_spoken [] = some only_system
check_spoken (m ∷ ms) =
    if not (is_user m)
    then some bad_first
    else if not (can_end (last_of m ms))
    then some bad_last
    else if not (every is_named (m ∷ ms))
    then some nameless
    else none

-- `none` where the conversation passes, and the fault of the first ValueError otherwise.
unfoldable pub validate_conversation : List Message → Option Fault
validate_conversation [] = some no_messages
validate_conversation (m ∷ ms) =
    if every is_known (m ∷ ms) then check_spoken (spoken (m ∷ ms)) else some invalid_role
