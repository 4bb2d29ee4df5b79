-- ===== src/Subagents/Lifecycle.antt =====
-- core/subagents/contract.py: the holder of a delegation's result, whose first terminal writer wins.
pub mod FirstWriter
use git_agent.Base.{
  Text, codes, Bool, true, false, Option, none, some, List, [], ◌∷◌, ℕ, if◌then◌else◌, or_else,
}
use git_agent.Value.{Value, Fields}

pub data SubagentStatus : Type 0 where
  pending : SubagentStatus
  running : SubagentStatus
  completed : SubagentStatus
  failed : SubagentStatus
  cancelled : SubagentStatus
  timed_out : SubagentStatus

unfoldable pub is_terminal : SubagentStatus → Bool
is_terminal pending = false
is_terminal running = false
is_terminal _ = true

-- The times are those of a clock that counts up.
pub record SubagentResult : Type 0 where
  pub task_id : Text
  pub status : SubagentStatus
  pub result : Option Text
  pub error : Option Text
  pub stop_reason : Option Text
  pub started_at : Option ℕ
  pub completed_at : Option ℕ
  pub token_usage_records : List Fields
  pub tool_receipts : Option (List Fields)
  pub findings : List Fields

-- The arguments of `try_set_terminal`.
pub record Terminal : Type 0 where
  pub status : SubagentStatus
  pub result : Option Text
  pub error : Option Text
  pub stop_reason : Option Text
  pub tool_receipts : Option (List Fields)
  pub token_usage_records : Option (List Fields)

-- `if new is not None: old = new`
abbrev pub update_opt {ℓ} : {A : Type ℓ} → Option A → Option A → Option A
update_opt none old = old
update_opt (some new) old = some new

unfoldable pub set_terminal : ℕ → Terminal → SubagentResult → SubagentResult
set_terminal now t r = record {
  task_id = r.task_id;
  status = t.status;
  result = update_opt t.result r.result;
  error = update_opt t.error r.error;
  stop_reason = update_opt t.stop_reason r.stop_reason;
  started_at = r.started_at;
  completed_at = some now;
  token_usage_records = or_else t.token_usage_records r.token_usage_records;
  tool_receipts = update_opt t.tool_receipts r.tool_receipts;
  findings = r.findings;
}

-- What a call gives back: an exception, or the returned value.
pub data Answer : Type 0 where
  value_error : Answer
  answers : Bool → Answer

unfoldable pub try_set_terminal : ℕ → Terminal → SubagentResult → SubagentResult × Answer
try_set_terminal now t r =
    if is_terminal t.status
    then (if is_terminal r.status then (r, answers false) else (set_terminal now t r, answers true))
    else (r, value_error)

unfoldable pub update_token_usage_records : List Fields → SubagentResult → SubagentResult
update_token_usage_records records r = if is_terminal r.status then r else record {
  task_id = r.task_id;
  status = r.status;
  result = r.result;
  error = r.error;
  stop_reason = r.stop_reason;
  started_at = r.started_at;
  completed_at = r.completed_at;
  token_usage_records = records;
  tool_receipts = r.tool_receipts;
  findings = r.findings;
}

unfoldable pub put_tool_receipts : List Fields → SubagentResult → SubagentResult
put_tool_receipts receipts r = if is_terminal r.status then r else record {
  task_id = r.task_id;
  status = r.status;
  result = r.result;
  error = r.error;
  stop_reason = r.stop_reason;
  started_at = r.started_at;
  completed_at = r.completed_at;
  token_usage_records = r.token_usage_records;
  tool_receipts = some receipts;
  findings = r.findings;
}

unfoldable pub update_tool_receipts : Option (List Fields) → SubagentResult → SubagentResult
update_tool_receipts none r = r
update_tool_receipts (some receipts) r = put_tool_receipts receipts r
