-- ===== src/Subagents/Delegation.antt =====
-- core/tools/delegation/task.py and core/subagents/contract.py: the end of a delegation, its usage,
-- its terminal event, its verdict and the text for the model.
use git_agent.Base.{
  Text, codes, Option, none, some, List, [], ◌∷◌, ◌++◌, ℕ, ◌+◌, if◌then◌else◌, rstrip, or_else,
  nat_eq, list_eq, ◌==◌, ◌>>=◌,
}
use git_agent.Value.{Value, Values, Fields, null, str, arr, obj, nil, cons, field, end, field_get}
use git_agent.Message.{ToolMessage}
use git_agent.Subagents.Citations.{
  ToolReceipt, Matcher, ReceiptVerdict, receipt_of, verify_receipt_citations,
}
use git_agent.Subagents.Ledger.{entry_id}
use git_agent.Subagents.Lifecycle.{
  SubagentStatus, SubagentResult, Terminal, pending, completed, failed, cancelled, timed_out,
  try_set_terminal,
}
use git_agent.Subagents.Contract.{status_value, natural_of, usage_fields}
use git_agent.Subagents.Steps.{Step}

-- SHA-256 in hexadecimal, `str.lower`, the regular expressions of reports, the clock, and the
-- time-out as it is shown.
pub record TaskEnv : Type 0 where
  pub sha256 : Text → Text
  pub lower : Text → Text
  pub matcher : Matcher
  pub now : ℕ
  pub exec_timeout : Text

-- How the execution ends: with the holder of the executor, without a slot, by the time-out, or with
-- the cancellation of the turn.
pub data Execution : Type 0 where
  returns : SubagentResult → Execution
  not_admitted : Text → Execution
  times_out : Execution
  is_cancelled : Execution

-- What is written to the stream.
pub data TaskEvent : Type 0 where
  task_started : Fields → TaskEvent
  task_running : Step → TaskEvent
  task_ended : Fields → TaskEvent

pub data TaskOutcome : Type 0 where
  answers : ToolMessage → TaskOutcome
  raises_value_error : TaskOutcome
  raises_cancelled : TaskOutcome

unfoldable pub fresh_holder : Text → SubagentResult
fresh_holder task_id = record {
  task_id = task_id;
  status = pending;
  result = none;
  error = none;
  stop_reason = none;
  started_at = none;
  completed_at = none;
  token_usage_records = [];
  tool_receipts = none;
  findings = [];
}

unfoldable pub ended_with : SubagentStatus → Text → Terminal
ended_with status error = record {
  status = status;
  result = none;
  error = some error;
  stop_reason = none;
  tool_receipts = none;
  token_usage_records = none;
}

-- The holder after the `except` clauses.
unfoldable pub settle : TaskEnv → Text → Execution → SubagentResult
settle e task_id (returns r) = r
settle e task_id (not_admitted why) =
    (try_set_terminal e.now (ended_with failed (codes "Delegation not admitted: " ++ why))
      (fresh_holder task_id)).0
settle e task_id times_out =
    (try_set_terminal e.now
      (ended_with timed_out (codes "Execution timed out after " ++ e.exec_timeout ++ codes "s"))
      (fresh_holder task_id)).0
settle e task_id is_cancelled =
    (try_set_terminal e.now (ended_with cancelled (codes "Cancelled")) (fresh_holder task_id)).0

-- `r.get(k, 0)` of a record, whose counts are natural numbers.
unfoldable pub count_at : Text → Fields → ℕ
count_at k r = or_else (natural_of (field_get k r)) 0

unfoldable pub sum_at : Text → List Fields → ℕ
sum_at k [] = 0
sum_at k (r ∷ rs) = count_at k r + sum_at k rs

unfoldable pub cumulative_usage : List Fields → Option Fields
cumulative_usage [] = none
cumulative_usage (r ∷ rs) = some (
    usage_fields (sum_at (codes "input_tokens") (r ∷ rs)) (sum_at (codes "output_tokens") (r ∷ rs))
      (sum_at (codes "total_tokens") (r ∷ rs)))

abbrev pub or_null : Option Value → Value
or_null none = null
or_null (some v) = v

abbrev pub text_or_null : Option Text → Value
text_or_null none = null
text_or_null (some t) = str t

unfoldable pub dicts_of : List Fields → Values
dicts_of [] = nil
dicts_of (d ∷ ds) = cons (obj d) (dicts_of ds)

abbrev pub dict_or_null : Option Fields → Value
dict_or_null none = null
dict_or_null (some d) = obj d

unfoldable pub terminal_event : SubagentResult → Text → Option Fields → Fields
terminal_event r subagent_type usage =
    field (codes "type") (str (codes "task_" ++ status_value r.status)) (
      field (codes "task_id") (str r.task_id) (
        field (codes "subagent_type") (str subagent_type) (
          field (codes "stop_reason") (text_or_null r.stop_reason) (
            field (codes "error") (text_or_null r.error) (
              field (codes "usage") (dict_or_null usage)
                (field (codes "findings") (arr (dicts_of r.findings)) end))))))

unfoldable pub started_event : Text → Text → Text → Fields
started_event task_id description subagent_type =
    field (codes "type") (str (codes "task_started")) (
      field (codes "task_id") (str task_id) (
        field (codes "description") (str description)
          (field (codes "subagent_type") (str subagent_type) end)))

-- The receipts of the holder. Every dictionary that the executor leaves there is whole.
unfoldable pub read_receipts : List Fields → List ToolReceipt
read_receipts [] = []
read_receipts (d ∷ ds) = elim (entry_id (obj d) >>= λ id. receipt_of id d) [
  | none ↦ read_receipts ds
  | some r ↦ r ∷ read_receipts ds
]

unfoldable pub verdict_for :
    Matcher → SubagentStatus → Option (List Fields) → Option Text → Option ReceiptVerdict
verdict_for re completed (some receipts) (some (c ∷ report)) =
    some (verify_receipt_citations re (c ∷ report) (read_receipts receipts))
verdict_for re status receipts report = none

-- `_STOP_REASON_LABELS`. The metadata of any other stop reason raises, as the missing key does.
unfoldable pub stop_reason_label : Text → Text
stop_reason_label s =
    if s == codes "token_capped"
    then codes "token budget"
    else (if s == codes "turn_capped" then codes "turn budget" else codes "loop detector")

-- `if stop_reason`
unfoldable pub cap_text : Option Text → Text
cap_text none = []
cap_text (some []) = []
cap_text (some (c ∷ s)) = codes " (capped: " ++ stop_reason_label (c ∷ s) ++ codes ")"

-- `text or default`
unfoldable pub given_or : Option Text → Text → Text
given_or none default = default
given_or (some []) default = default
given_or (some (c ∷ s)) default = c ∷ s

unfoldable pub format_subagent_result_message :
    SubagentStatus → Option Text → Option Text → Option Text → Text
format_subagent_result_message completed result error stop =
    codes "Task Succeeded"
    ++ cap_text stop
    ++ codes ". Result:\n"
    ++ given_or result (codes "No response generated")
format_subagent_result_message timed_out result error stop =
    rstrip (codes "Task Timed Out" ++ cap_text stop ++ codes ". " ++ given_or error [])
format_subagent_result_message cancelled result error stop =
    rstrip (codes "Task Cancelled" ++ cap_text stop ++ codes ". " ++ given_or error [])
format_subagent_result_message _ result error stop =
    codes "Task Failed" ++ cap_text stop ++ codes ". " ++ given_or error (codes "Unknown error")
