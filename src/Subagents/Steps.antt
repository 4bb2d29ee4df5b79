-- ===== src/Subagents/Steps.antt =====
-- core/subagents/steps.py: the steps of a subagent, captured out of the stream of its messages.
pub mod Capture
pub mod Once
use native.Mathlib.Decide.{ℕ_discrete}
use git_agent.Base.{
  Text, codes, Bool, true, false, not, Option, none, some, List, [], ◌∷◌, ◌++◌, ℕ, suc, ◌-◌, ◌+◌,
  ltb, leb, if◌then◌else◌, length, take, drop, contains, is_nil, get_last?, map, ℤ, nat_eq, list_eq,
  ◌==◌, HasEq, eq_of_discrete,
}
use git_agent.Value.{Value, Fields, null, str, obj, truthy}
use git_agent.Message.{Message, AiMessage, ToolMessage, ToolCall, Usage, ai, tool, human, system}

abbrev pub subagent_step_max_chars : ℕ
subagent_step_max_chars = 8192

abbrev pub args_preview_max_chars : ℕ
args_preview_max_chars = 2000

pub record StepCall : Type 0 where
  pub name : Text
  pub args : Text
  pub args_truncated : Bool

-- The keys that a step may lack are optional.
pub record Step : Type 0 where
  pub task_id : Text
  pub message_index : ℕ
  pub kind : Text
  pub text : Text
  pub truncated : Bool
  pub usage : Option (ℤ × ℤ)
  pub tool_calls : Option (List StepCall)
  pub tool_name : Option (Option Text)

pub Step-discrete : Discrete Step
Step-discrete = hlevel ℕ_discrete

instance abbrev pub step_eq : HasEq Step
step_eq = eq_of_discrete Step-discrete

unfoldable pub truncate_step_text : ℕ → Text → Text × Bool
truncate_step_text max_chars text =
    if leb (length text) max_chars then (text, false) else (take max_chars text, true)

-- `_content_to_text`; `json.dumps` is the parameter.
unfoldable pub content_to_text : (Value → Text) → Value → Text
content_to_text json null = []
content_to_text json (str s) = s
content_to_text json v = json v

-- The text of a message: `_content_to_text(message.content or "")`
unfoldable pub message_content : (Value → Text) → Value → Text
message_content json v = content_to_text json (if truthy v then v else str [])

unfoldable pub step_call : (Value → Text) → ToolCall → StepCall
step_call json c =
    let preview = json (obj c.args) in
    record {
      name = c.name;
      args = take args_preview_max_chars preview;
      args_truncated = ltb args_preview_max_chars (length preview);
    }

unfoldable pub step_calls : (Value → Text) → List ToolCall → Option (List StepCall)
step_calls json [] = none
step_calls json (c ∷ cs) = some (map (step_call json) (c ∷ cs))

unfoldable pub step_usage : Option Usage → Option (ℤ × ℤ)
step_usage none = none
step_usage (some u) = some (u.input_tokens, u.output_tokens)

-- The step of a message that is captured, and the message's id.
unfoldable pub build_subagent_step :
    (Value → Text) → Text → ℕ → Message → Option (Step × Option Text)
build_subagent_step json task_id index (ai m) =
    let text = truncate_step_text subagent_step_max_chars (message_content json m.content) in
    some (
      record {
        task_id = task_id;
        message_index = index;
        kind = codes "ai";
        text = text.0;
        truncated = text.1;
        usage = step_usage m.usage_metadata;
        tool_calls = step_calls json m.tool_calls;
        tool_name = none;
      },
      m.id,
    )
build_subagent_step json task_id index (tool m) =
    let text = truncate_step_text subagent_step_max_chars (message_content json m.content) in
    some (
      record {
        task_id = task_id;
        message_index = index;
        kind = codes "tool";
        text = text.0;
        truncated = text.1;
        usage = none;
        tool_calls = none;
        tool_name = some m.name;
      },
      m.id,
    )
build_subagent_step json task_id index (human m) = none
build_subagent_step json task_id index (system m) = none

-- The lists that the captures share.
pub record Captured : Type 0 where
  pub steps : List Step
  pub seen_ids : List Text

unfoldable pub add_step : Step → Option Text → Captured → Captured
add_step step none c =
    if contains step c.steps
    then c
    else record { steps = c.steps ++ step ∷ []; seen_ids = c.seen_ids }
add_step step (some id) c =
    if contains id c.seen_ids
    then c
    else record { steps = c.steps ++ step ∷ []; seen_ids = id ∷ c.seen_ids }

unfoldable pub capture_built : Option (Step × Option Text) → Captured → Captured
capture_built none c = c
capture_built (some s) c = add_step s.0 s.1 c

-- `_capture`
unfoldable pub capture : (Value → Text) → Text → ℕ → Message → Captured → Captured
capture json task_id index m c = capture_built (build_subagent_step json task_id index m) c

unfoldable pub capture_all : (Value → Text) → Text → ℕ → List Message → Captured → Captured
capture_all json task_id index [] c = c
capture_all json task_id index (m ∷ ms) c =
    capture_all json task_id (suc index) ms (capture json task_id index m c)

unfoldable pub capture_last : (Value → Text) → Text → ℕ → Option Message → Captured → Captured
capture_last json task_id index none c = c
capture_last json task_id index (some m) c = capture json task_id index m c

-- The captures after a new state of the stream; the cursor is at `processed_count`.
unfoldable pub capture_from : (Value → Text) → Text → List Message → ℕ → Captured → Captured
capture_from json task_id messages processed_count c =
    if ltb processed_count (length messages)
    then capture_all json task_id processed_count (drop processed_count messages) c
    else capture_last json task_id (length messages - 1) (get_last? messages) c

-- The new cursor, the new steps, and the captures.
unfoldable pub capture_new_step_messages :
    (Value → Text) → Text → List Message → Captured → ℕ → ℕ × List Step × Captured
capture_new_step_messages json task_id messages c processed_count =
    let from = if ltb (length messages) processed_count then 0 else processed_count in
    let after = capture_from json task_id messages from c in
    (length messages, drop (length c.steps) after.steps, after)
