-- ===== src/Runner/History.antt =====
-- core/runner/history.py: the repair of a thread that a cancelled or truncated turn left behind.
pub mod Repair
pub mod Added
pub mod Update
mod Tests
use git_agent.Base.{
  Text, codes, Bool, true, false, Option, none, some, List, [], ◌∷◌, ◌++◌, ◌||◌, ℕ, ◌+◌, not,
  if◌then◌else◌, contains, filter_by, is_nil, join, strip, length, take, drop, map, HasEq, nat_eq,
  list_eq, option_eq, ◌==◌,
}
use git_agent.Value.{Value, str, end}
use git_agent.Message.{
  Message, AiMessage, ToolMessage, ToolCall, ai, tool, human, system, message_eq,
}
use git_agent.Runner.Content.{message_text}

unfoldable pub cancelled_tool_result : Text
cancelled_tool_result =
    codes
      "tool call was cancelled before it produced a result (turn interrupted); do not assume it ran"

unfoldable pub truncated_tool_call_note : Text
truncated_tool_call_note =
    codes
      "[a tool call was truncated by the output token limit and dropped; re-issue it in a shorter form]"

-- `{m.tool_call_id for m in messages if isinstance(m, ToolMessage)}`, as a list.
abbrev pub answered_ids : List Message → List (Option Text)
answered_ids [] = []
answered_ids (tool m ∷ ms) = m.tool_call_id ∷ answered_ids ms
answered_ids (ai m ∷ ms) = answered_ids ms
answered_ids (human m ∷ ms) = answered_ids ms
answered_ids (system m ∷ ms) = answered_ids ms

-- The synthetic answer of a call.
unfoldable pub cancelled_answer : ToolCall → ToolMessage
cancelled_answer c = record {
  id = none;
  content = str cancelled_tool_result;
  tool_call_id = c.id;
  name = some c.name;
  status = codes "success";
  additional_kwargs = end;
}

abbrev pub dangling : List (Option Text) → List ToolCall → List ToolCall
dangling answered = filter_by (λ c. not (contains c.id answered))

abbrev pub answers : List (Option Text) → List ToolCall → List Message
answers answered calls = map (λ c. tool (cancelled_answer c)) (dangling answered calls)

-- The message without its truncated calls, with the note in its text. Python's `str` is the
-- parameter.
unfoldable pub drop_invalid : (Value → Text) → AiMessage → AiMessage
drop_invalid str_value m = if is_nil m.invalid_tool_calls then m else record {
  id = m.id;
  content = str (
      join (codes "\n\n") (
        filter_by (λ x. not (is_nil x))
          (strip (message_text str_value m.content) ∷ truncated_tool_call_note ∷ [])));
  tool_calls = m.tool_calls;
  invalid_tool_calls = [];
  additional_kwargs = m.additional_kwargs;
  response_metadata = m.response_metadata;
  usage_metadata = m.usage_metadata;
}

-- One turn of the loop: what the message becomes, and what it counts.
unfoldable pub repair : (Value → Text) → List (Option Text) → Message → List Message × ℕ
repair str_value answered (ai m) = (
  ai (drop_invalid str_value m) ∷ answers answered m.tool_calls,
  (if is_nil m.invalid_tool_calls then 0 else 1) + length (dangling answered m.tool_calls),
)
repair str_value answered (tool m) = (tool m ∷ [], 0)
repair str_value answered (human m) = (human m ∷ [], 0)
repair str_value answered (system m) = (system m ∷ [], 0)

unfoldable pub repair_all : (Value → Text) → List (Option Text) → List Message → List Message × ℕ
repair_all str_value answered [] = ([], 0)
repair_all str_value answered (m ∷ ms) =
    let here = repair str_value answered m in
    let rest = repair_all str_value answered ms in (here.0 ++ rest.0, here.1 + rest.1)

unfoldable pub repaired_messages : (Value → Text) → List Message → List Message × ℕ
repaired_messages str_value messages = repair_all str_value (answered_ids messages) messages

-- What `aupdate_state` is given: messages to add, or `REMOVE_ALL_MESSAGES` and the whole history.
pub data Change : Type 0 where
  append : List Message → Change
  rewrite_all : List Message → Change

-- How `fixed` reaches the thread.
unfoldable pub change_to : List Message → List Message → Change
change_to messages fixed =
    if take (length messages) fixed == messages
    then append (drop (length messages) fixed)
    else rewrite_all fixed

-- The change of the thread, if any, and the number of repairs.
unfoldable pub repair_dangling_tool_calls : (Value → Text) → List Message → Option Change × ℕ
repair_dangling_tool_calls str_value messages =
    let fixed = repaired_messages str_value messages in
    if is_nil messages || fixed.1 == 0
    then (none, 0)
    else (some (change_to messages fixed.0), fixed.1)
