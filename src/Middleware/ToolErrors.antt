-- ===== src/Middleware/ToolErrors.antt =====
-- core/middleware/tool_error_handling.py: an exception of a tool becomes an error message.
pub mod Chain
use git_agent.Base.{Text, codes, Option, none, some, List, [], ◌∷◌, ◌++◌, ℕ, take, or_else}
use git_agent.Value.{Value, str, end}
use git_agent.Message.{ToolCall, ToolMessage}
use git_agent.Middleware.ToolReceipts.{Env, ToolResult, message, stamp}
use git_agent.Middleware.Sanitization.{Chars, default_untrusted_tools, sanitize}

abbrev pub detail_max_chars : ℕ
detail_max_chars = 500

-- How a handler ends: with a result, with a `GraphBubbleUp`, or with another exception, of which the
-- class name and the text are used.
pub data Ending : Type 0 where
  returns : ToolResult → Ending
  bubbles_up : Ending
  raises : Text → Text → Ending

-- `str(name or default)`
unfoldable pub name_or : Text → Text → Text
name_or [] default = default
name_or (c ∷ s) default = c ∷ s

unfoldable pub to_error_message : ToolCall → Text → Text → ToolMessage
to_error_message call exc_type exc =
    let name = name_or call.name (codes "unknown") in
    record {
      id = none;
      content = str (
          codes "Error: Tool '"
          ++ name
          ++ codes "' failed with "
          ++ exc_type
          ++ codes ": "
          ++ take detail_max_chars exc
          ++ codes ". You may retry, adjust arguments, or try another approach.");
      tool_call_id = some (or_else call.id []);
      name = some name;
      status = codes "error";
      additional_kwargs = end;
    }

unfoldable pub handled : ToolCall → Ending → Ending
handled call (returns r) = returns r
handled call bubbles_up = bubbles_up
handled call (raises exc_type exc) = returns (message (to_error_message call exc_type exc))

unfoldable pub wrap_tool_call : (ToolCall → Ending) → ToolCall → Ending
wrap_tool_call handler call = handled call (handler call)

-- What an outer middleware does to a result, and not to an exception.
unfoldable pub on_return : (ToolResult → ToolResult) → Ending → Ending
on_return f (returns r) = returns (f r)
on_return f bubbles_up = bubbles_up
on_return f (raises exc_type exc) = raises exc_type exc

-- A tool call of a subagent: the middleware of its agent, the outermost last.
unfoldable pub subagent_call : Env → Chars → (ToolCall → Ending) → ToolCall → Ending
subagent_call e k handler call =
    let stamped = on_return (stamp e call) (wrap_tool_call handler call) in
    on_return (sanitize k default_untrusted_tools call) stamped
