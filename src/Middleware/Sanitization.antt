-- ===== src/Middleware/Sanitization.antt =====
-- core/middleware/tool_result_sanitization.py: framework tags in the output of untrusted tools.
pub mod Clean
use git_agent.Base.{
  Text, codes, Bool, true, false, Option, none, some, List, [], ◌∷◌, ◌++◌, ℕ, zero, suc, ◌+◌, ◌&&◌,
  ◌||◌, not, if◌then◌else◌, any_by, contains, nat_eq, list_eq, option_eq, ◌==◌, HasEq,
}
use git_agent.Value.{Value, Fields, null, bool, int, str, arr, obj, other, field_put}
use git_agent.Message.{ToolCall, Message, ToolMessage, ai, tool, human, system}
use git_agent.Middleware.ToolReceipts.{ToolResult, message, command, nothing}

unfoldable pub sanitized_key : Text
sanitized_key = codes "sanitized"

unfoldable pub default_untrusted_tools : List Text
default_untrusted_tools = codes "sandbox_run" ∷ codes "read_file" ∷ []

unfoldable pub framework_tags : List Text
framework_tags =
    codes "system-reminder"
    ∷ codes "report_contract"
    ∷ codes "acceptance_criteria"
    ∷ codes "durable_context_data"
    ∷ codes "system"
    ∷ codes "instruction"
    ∷ codes "override"
    ∷ []

-- Python's tables: the characters of `\w`, and whether a character of a pattern matches a character
-- of the text under `re.IGNORECASE`.
pub record Chars : Type 0 where
  pub is_word : ℕ → Bool
  pub matches : ℕ → ℕ → Bool

-- `\b` after a tag
unfoldable pub at_boundary : Chars → Text → Bool
at_boundary k [] = true
at_boundary k (c ∷ s) = not (k.is_word c)

-- The text starts with the tag, and the word ends there.
unfoldable pub starts_with_tag : Chars → Text → Text → Bool
starts_with_tag k [] s = at_boundary k s
starts_with_tag k (t ∷ ts) [] = false
starts_with_tag k (t ∷ ts) (c ∷ s) = k.matches t c && starts_with_tag k ts s

unfoldable pub starts_with_any : Chars → List Text → Text → Bool
starts_with_any k [] s = false
starts_with_any k (t ∷ ts) s = starts_with_tag k t s || starts_with_any k ts s

-- `(/?)` and the tag, after a `<`
unfoldable pub tag_follows : Chars → Text → Bool
tag_follows k [] = starts_with_any k framework_tags []
tag_follows k (c ∷ s) =
    (c == 47 && starts_with_any k framework_tags s) || starts_with_any k framework_tags (c ∷ s)

-- `_TAG_RE.subn(r"&lt;\1\2", text)`: the `<` of a tag is replaced and the rest of the tag is copied,
-- in which there is no other `<`.
unfoldable pub neutralize_framework_tags : Chars → Text → Text × ℕ
neutralize_framework_tags k [] = ([], 0)
neutralize_framework_tags k (c ∷ s) =
    let rest : Text × ℕ = neutralize_framework_tags k s in
    if c == 60 && tag_follows k s
    then (codes "&lt;" ++ rest.0, suc rest.1)
    else (c ∷ rest.0, rest.1)

-- `if hits: message.content = cleaned`
unfoldable pub clean_message : ToolMessage → Text × ℕ → ToolMessage
clean_message m (cleaned, zero) = m
clean_message m (cleaned, suc hits) = record m {
  content = str cleaned;
  additional_kwargs = field_put sanitized_key (bool true) m.additional_kwargs;
}

unfoldable pub sanitize_content : Chars → ToolMessage → Value → ToolMessage
sanitize_content k m (str s) = clean_message m (neutralize_framework_tags k s)
sanitize_content k m v = m

unfoldable pub sanitize_message : Chars → ToolMessage → ToolMessage
sanitize_message k m = sanitize_content k m m.content

unfoldable pub sanitize_own : Chars → ToolCall → Message → Message
sanitize_own k call (tool m) =
    if m.tool_call_id == call.id then tool (sanitize_message k m) else tool m
sanitize_own k call m = m

unfoldable pub sanitize_update : Chars → ToolCall → List Message → List Message
sanitize_update k call [] = []
sanitize_update k call (m ∷ ms) = sanitize_own k call m ∷ sanitize_update k call ms

unfoldable pub sanitize_result : Chars → ToolCall → ToolResult → ToolResult
sanitize_result k call (message m) = message (sanitize_message k m)
sanitize_result k call (command ms) = command (sanitize_update k call ms)
sanitize_result k call nothing = nothing

unfoldable pub sanitize : Chars → List Text → ToolCall → ToolResult → ToolResult
sanitize k untrusted call result =
    if not (contains call.name untrusted) then result else sanitize_result k call result

unfoldable pub wrap_tool_call : Chars → List Text → (ToolCall → ToolResult) → ToolCall → ToolResult
wrap_tool_call k untrusted handler call = sanitize k untrusted call (handler call)
