-- ===== src/Harness/Context.antt =====
-- src/harness/context.py: compaction of a conversation.
--
-- The summarizer is a call of the model: it is made in Harness/Loop, from what is dropped here.
-- The estimate of tokens (`count`, with the system prompt), the test on the length of a content and
-- the text of the note on what is dropped are parameters; `placeholder` is the message that stands
-- for that note while the size is tried.
pub mod Valid
use core_ai_protocol_suite.Prelude.{
  ◌||◌, ℕ, zero, suc, ◌+◌, ◌-◌, min, String, Bool, true, false, ◌&&◌, none, List, [], ◌∷◌, ◌++◌,
  length, leb, ltb, if◌then◌else◌,
}
use core_ai_protocol_suite.Conversation.{Role, user, tool, Content, words, shortened, Message}

abbrev pub is_tool : Message → Bool
is_tool m = elim m.role [ tool ↦ true | _ ↦ false ]

-- The parameters, and `max_tokens` and `keep_recent`.
pub record Measure : Type 0 where
  pub count : List Message → ℕ
  pub long : Content → Bool
  pub note : List Message → String
  pub placeholder : Message
  pub max_tokens : ℕ
  pub keep_recent : ℕ

abbrev pub user_says : String → Message
user_says text = record { role = user; content = words text; tool_calls = []; tool_call_id = none }

-- The gathering behind `_turns`: the tool messages at the front, and the turns after them.
unfoldable pub gather : List Message → List Message × List (List Message)
gather [] = ([], [])
gather (m ∷ ms) = let r = gather ms in if is_tool m then (m ∷ r.0, r.1) else ([], (m ∷ r.0) ∷ r.1)

unfoldable pub turns_of : List Message × List (List Message) → List (List Message)
turns_of ([], ts) = ts
turns_of (m ∷ ms, ts) = (m ∷ ms) ∷ ts

-- `_turns`
unfoldable pub turns : List Message → List (List Message)
unfolding turns_of
turns ms = turns_of (gather ms)

unfoldable pub flat : List (List Message) → List Message
flat [] = []
flat (t ∷ ts) = t ++ flat ts

-- The first step: the tool outputs among the first `n` messages are cut short.
unfoldable pub shrink : Measure → ℕ → List Message → List Message
shrink k zero ms = ms
shrink k (suc n) [] = []
shrink k (suc n) (m ∷ ms) =
    (if is_tool m && k.long m.content then record m { content = shortened m.content } else m)
    ∷ shrink k n ms

-- `_over`
unfoldable pub over : Measure → List Message → List (List Message) → Bool
over k pinned ts = ltb k.max_tokens (k.count (pinned ++ (k.placeholder ∷ flat ts)))

-- The `while` loop of the second step: what is dropped, and the turns left.
unfoldable pub drop_turns :
    Measure → List Message → List (List Message) → List Message × List (List Message)
drop_turns k pinned [] = ([], [])
drop_turns k pinned (t ∷ []) = ([], t ∷ [])
drop_turns k pinned (t ∷ u ∷ ts) =
    let rest = drop_turns k pinned (u ∷ ts) in
    if leb (min k.keep_recent 1) (length (flat (u ∷ ts))) && over k pinned (t ∷ u ∷ ts)
    then (t ++ rest.0, rest.1)
    else ([], t ∷ u ∷ ts)

-- The last loop: leading tool messages go.
unfoldable pub pop_tools : List Message → List Message
pop_tools [] = []
pop_tools (m ∷ ms) = let rest = pop_tools ms in if is_tool m then rest else m ∷ ms

unfoldable pub with_note : Measure → List Message × List (List Message) → List Message
with_note k ([], ts) = pop_tools (flat ts)
with_note k (m ∷ dropped, ts) = pop_tools (user_says (k.note (m ∷ dropped)) ∷ flat ts)

-- From the second step on.
unfoldable pub condense : Measure → List Message → List Message → List Message
condense k pinned rest = with_note k (drop_turns k pinned (turns rest))

-- `compact`: the messages that fit, and whether anything changed.
unfoldable pub compact : Measure → List Message → List Message × Bool
compact k [] = ([], ltb k.max_tokens (k.count []))
compact k (m ∷ ms) =
    let rest = shrink k (length ms - k.keep_recent) ms in
    if leb (k.count (m ∷ ms)) k.max_tokens
    then (m ∷ ms, false)
    else if leb (k.count (m ∷ rest)) k.max_tokens
    then (m ∷ rest, true)
    else (m ∷ condense k (m ∷ []) rest, true)

-- What the second step of `compact` drops, and hands to the summarizer if there is one.
unfoldable pub dropped : Measure → List Message → List Message
dropped k [] = []
dropped k (m ∷ ms) =
    let rest = shrink k (length ms - k.keep_recent) ms in
    if leb (k.count (m ∷ ms)) k.max_tokens || leb (k.count (m ∷ rest)) k.max_tokens
    then []
    else (drop_turns k (m ∷ []) (turns rest)).0
