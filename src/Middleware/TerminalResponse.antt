-- ===== src/Middleware/TerminalResponse.antt =====
-- core/middleware/terminal_response.py: the second chance of an empty final answer.
pub mod Retry
use git_agent.Base.{
  Text, codes, Bool, true, false, Option, none, some, List, [], ◌∷◌, ◌&&◌, not, is_nil, strip,
  any_by, if◌then◌else◌,
}
use git_agent.Value.{Value, Fields, bool, str, end, field_put}
use git_agent.Message.{Message, AiMessage, is_tool, last_ai}

unfoldable pub error_fallback_key : Text
error_fallback_key = codes "error_fallback"

unfoldable pub visible_error : Text
visible_error =
    codes
      "The model returned an empty response twice after tool execution. The run ended without a synthesized answer; see the tool results above."

unfoldable pub recovery_prompt : Text
recovery_prompt =
    codes
      "[recovery] Your previous reply was empty. Provide the final answer now, based on the tool results above."

pub record Terminal : Type 0 where
  pub retried : Bool
  pub pending_recovery : Bool

unfoldable pub init : Terminal
init = record { retried = false; pending_recovery = false }

-- The update that `after_model` returns.
pub data Update : Type 0 where
  nothing : Update
  -- the last message removed, and a jump to the model
  remove_and_retry : Option Text → Update
  replace : AiMessage → Update

-- `message.text` of LangChain is the parameter.
unfoldable pub is_empty_final : (AiMessage → Text) → AiMessage → Bool
is_empty_final text_of m = is_nil m.tool_calls && is_nil (strip (text_of m))

unfoldable pub error_message : AiMessage → AiMessage
error_message last = record {
  id = last.id;
  content = str visible_error;
  tool_calls = [];
  invalid_tool_calls = [];
  additional_kwargs = field_put error_fallback_key (bool true) last.additional_kwargs;
  response_metadata = end;
  usage_metadata = none;
}

-- The last message is an empty answer after tool results.
unfoldable pub recover : Terminal → AiMessage → Terminal × Update
recover s last =
    if s.retried
    then (s, replace (error_message last))
    else (record { retried = true; pending_recovery = true }, remove_and_retry last.id)

unfoldable pub inspect :
    (AiMessage → Text) → Terminal → List Message → AiMessage → Terminal × Update
inspect text_of s messages last =
    if is_empty_final text_of last && any_by is_tool messages then recover s last else (s, nothing)

unfoldable pub inspect_last :
    (AiMessage → Text) → Terminal → List Message → Option AiMessage → Terminal × Update
inspect_last text_of s messages none = (s, nothing)
inspect_last text_of s messages (some last) = inspect text_of s messages last

unfoldable pub after_model : (AiMessage → Text) → Terminal → List Message → Terminal × Update
after_model text_of s messages = inspect_last text_of s messages (last_ai messages)

-- The hidden messages that a model call is given.
unfoldable pub drain : Terminal → Terminal × List Text
drain s =
    if s.pending_recovery
    then (record { retried = s.retried; pending_recovery = false }, recovery_prompt ∷ [])
    else (s, [])
