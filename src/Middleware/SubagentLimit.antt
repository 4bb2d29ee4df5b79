-- ===== src/Middleware/SubagentLimit.antt =====
-- core/middleware/subagent_limit.py: the lead's limits on delegation.
pub mod Sublist
pub mod Kept
pub mod Cap
use git_agent.Base.{
  Text, codes, Bool, true, false, Option, none, some, List, [], ◌∷◌, ◌||◌, not, leb, length, take,
  is_nil, is_some, filter_by, contains, to_set, HasEq, nat_eq, list_eq, option_eq, ◌==◌,
  if◌then◌else◌, map, ℕ, ◌-◌, min,
}
use git_agent.Value.{Value, field_get}
use git_agent.Message.{Message, AiMessage, ToolMessage, ToolCall, ai, tool, last_ai}
use git_agent.Subagents.Contract.{subagent_status_key}
use git_agent.Middleware.Clone.{clone_ai_message_with_tool_calls}

pub record Limits : Type 0 where
  pub max_concurrent : ℕ
  pub max_total_per_run : ℕ

-- `SubagentLimitMiddleware()` with its defaults
abbrev pub default_limits : Limits
default_limits = record { max_concurrent = 3; max_total_per_run = 6 }

unfoldable pub is_delegation : Message → Bool
is_delegation (tool m) = is_some (field_get subagent_status_key m.additional_kwargs)
is_delegation _ = false

unfoldable pub prior_delegations : List Message → ℕ
prior_delegations messages = length (filter_by is_delegation messages)

abbrev pub is_task : ToolCall → Bool
is_task c = c.name == codes "task"

abbrev pub task_calls : List ToolCall → List ToolCall
task_calls = filter_by is_task

abbrev pub call_ids : List ToolCall → List (Option Text)
call_ids = map (λ c. c.id)

unfoldable pub allowed : Limits → List Message → ℕ
allowed limits messages =
    min limits.max_concurrent (limits.max_total_per_run - prior_delegations messages)

unfoldable pub kept_ids : ℕ → List ToolCall → List (Option Text)
kept_ids n calls =
    let kept_task_ids : List (Option Text) = to_set (call_ids (take n (task_calls calls))) in
    to_set (call_ids (filter_by (λ c. not (is_task c) || contains c.id kept_task_ids) calls))

-- The update that `after_model` returns: the message that replaces the last one, or `None`.
unfoldable pub limit_calls : ℕ → AiMessage → Option AiMessage
limit_calls n last =
    if is_nil (task_calls last.tool_calls) || leb (length (task_calls last.tool_calls)) n
    then none
    else some (clone_ai_message_with_tool_calls last (kept_ids n last.tool_calls) none)

unfoldable pub after_model : Limits → List Message → Option AiMessage
after_model limits messages = elim (last_ai messages) [
  | none ↦ none
  | some last ↦ limit_calls (allowed limits messages) last
]
