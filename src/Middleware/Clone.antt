-- ===== src/Middleware/Clone.antt =====
-- core/middleware/_common.py: the clone of an AI message with fewer tool calls, and the hidden
-- messages of a request.
pub mod Hygiene
use git_agent.Base.{
  Text, codes, Bool, true, false, Option, none, some, List, [], ◌∷◌, ◌++◌, ◌&&◌, not, ltb, length,
  is_nil, filter_by, contains, HasEq, nat_eq, list_eq, option_eq, ◌==◌, if◌then◌else◌, map,
}
use git_agent.Value.{
  Value, Values, Fields, null, str, arr, obj, bool, nil, cons, end, field_get, field_put, field_pop,
  filter_values, field,
}
use git_agent.Message.{Message, AiMessage, ToolCall, human}

unfoldable pub hide_from_ui_key : Text
hide_from_ui_key = codes "hide_from_ui"

unfoldable pub total_limit_stop_msg : Text
total_limit_stop_msg =
    codes
      "\n\n[SUBAGENT LIMIT REACHED] The delegation budget for this run is exhausted; further `task` calls were removed. Synthesize the final answer from the results already collected."

abbrev pub key_tool_calls : Text
key_tool_calls = codes "tool_calls"

abbrev pub key_function_call : Text
key_function_call = codes "function_call"

abbrev pub key_finish_reason : Text
key_finish_reason = codes "finish_reason"

-- `c.get("id") in kept_ids` for a raw call
unfoldable pub raw_id_kept : List (Option Text) → Option Value → Bool
raw_id_kept kept none = contains none kept
raw_id_kept kept (some null) = contains none kept
raw_id_kept kept (some (str t)) = contains (some t) kept
raw_id_kept kept (some _) = false

unfoldable pub raw_kept : List (Option Text) → Value → Bool
raw_kept kept (obj call) = raw_id_kept kept (field_get (codes "id") call)
raw_kept kept _ = false

-- The raw provider calls in `additional_kwargs`.
unfoldable pub filter_raw_calls : List (Option Text) → Option Value → Fields → Fields
filter_raw_calls kept (some (arr raw_calls)) kwargs =
    elim (filter_values (raw_kept kept) raw_calls) [
      | nil ↦ field_pop key_tool_calls kwargs
      | cons v vs ↦ field_put key_tool_calls (arr (cons v vs)) kwargs
    ]
filter_raw_calls kept _ kwargs = kwargs

unfoldable pub is_str_of : Text → Option Value → Bool
is_str_of t (some (str s)) = s == t
is_str_of t _ = false

unfoldable pub append_note : Value → Text → Value
append_note (str content) note = str (content ++ note)
append_note content note = content

module _ (message : AiMessage) (kept_ids : List (Option Text)) where
  unfoldable pub kept_calls : List ToolCall
  kept_calls = filter_by (λ c. contains c.id kept_ids) message.tool_calls

  unfoldable pub cloned_kwargs : Fields
  cloned_kwargs =
      let kwargs =
        filter_raw_calls kept_ids (field_get key_tool_calls message.additional_kwargs)
          message.additional_kwargs in
      if is_nil kept_calls then field_pop key_function_call kwargs else kwargs

  unfoldable pub cloned_metadata : Fields
  cloned_metadata =
      let finish = field_get key_finish_reason message.response_metadata in
      if is_nil kept_calls && is_str_of (codes "tool_calls") finish
      then field_put key_finish_reason (str (codes "stop")) message.response_metadata
      else message.response_metadata

  unfoldable pub cloned_content : Option Text → Value
  cloned_content stop_note =
      let note : Text = elim stop_note [ some n ↦ n | none ↦ total_limit_stop_msg ] in
      if is_nil kept_calls && ltb (length kept_ids) (length message.tool_calls)
      then append_note message.content note
      else message.content

  -- The new message is built from five fields: it has no invalid calls and no usage.
  unfoldable pub clone_ai_message_with_tool_calls : Option Text → AiMessage
  clone_ai_message_with_tool_calls stop_note = record {
    id = message.id;
    content = cloned_content stop_note;
    tool_calls = kept_calls;
    invalid_tool_calls = [];
    additional_kwargs = cloned_kwargs;
    response_metadata = cloned_metadata;
    usage_metadata = none;
  }

unfoldable pub strip_all_tool_calls : AiMessage → Text → AiMessage
strip_all_tool_calls message stop_note =
    clone_ai_message_with_tool_calls message [] (some stop_note)

unfoldable pub hidden_human : Text → Message
hidden_human text = human (record {
  id = none;
  content = str text;
  additional_kwargs = field hide_from_ui_key (bool true) end;
})

-- `append_hidden_human` on the messages of a request
unfoldable pub append_hidden_human : List Message → List Text → List Message
append_hidden_human messages texts = messages ++ map hidden_human texts
