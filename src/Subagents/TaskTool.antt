-- ===== src/Subagents/TaskTool.antt =====
-- core/tools/delegation/task.py: the tool `task`, which delegates to a subagent and reports on it.
pub mod Reported
use git_agent.Base.{
  Text, codes, Bool, true, false, Option, none, some, List, [], ◌∷◌, ◌++◌, ℕ, ◌+◌, ◌&&◌, map,
  is_nil, not, if◌then◌else◌, strip, rstrip, join, pos, or_else, nat_eq, list_eq, ◌==◌, HasEq,
  ◌>>=◌,
}
use git_agent.Value.{
  Value, Values, Fields, null, bool, int, str, arr, obj, nil, cons, field, end, field_get,
}
use git_agent.Message.{ToolMessage}
use git_agent.Subagents.Citations.{
  ToolReceipt, Matcher, ReceiptVerdict, receipt_of, verify_receipt_citations,
}
use git_agent.Subagents.Ledger.{entry_id}
use git_agent.Subagents.Report.{render_citation_verdict}
use git_agent.Subagents.Registry.{SubagentConfig, available_subagent_names, resolve_subagent_config}
use git_agent.Subagents.Lifecycle.{
  SubagentStatus, SubagentResult, Terminal, pending, running, completed, failed, cancelled,
  timed_out, try_set_terminal,
}
use git_agent.Subagents.Contract.{
  Report, status_value, natural_of, make_subagent_additional_kwargs, usage_fields,
}
use git_agent.Subagents.Steps.{Step}
use git_agent.Subagents.Delegation.{
  TaskEnv, Execution, returns, not_admitted, times_out, is_cancelled, TaskEvent, task_started,
  task_running, task_ended, TaskOutcome, answers, raises_value_error, raises_cancelled, settle,
  cumulative_usage, terminal_event, started_event, verdict_for, format_subagent_result_message,
}

-- The text in brackets that is added to the message.
unfoldable pub bracketed : Text → Text
bracketed [] = []
bracketed (c ∷ t) = codes "\n\n[" ++ (c ∷ t) ++ codes "]"

unfoldable pub verdict_line : Option ReceiptVerdict → Text
verdict_line none = []
verdict_line (some v) = bracketed (render_citation_verdict v)

unfoldable pub note_line : Option Text → Text
note_line none = []
note_line (some note) = bracketed note

unfoldable pub texts_of : List Text → Values
texts_of [] = nil
texts_of (t ∷ ts) = cons (str t) (texts_of ts)

unfoldable pub failures_of : List (Text × Text) → Values
failures_of [] = nil
failures_of (f ∷ fs) =
    cons (obj (field (codes "id") (str f.0) (field (codes "reason") (str f.1) end)))
      (failures_of fs)

-- `dict(receipt_verdict)`
unfoldable pub verdict_fields : ReceiptVerdict → Fields
verdict_fields v = field (codes "source") (str (codes "receipt_citations")) (
    field (codes "requirement") (str (codes "cited_ids_in_execution_record")) (
      field (codes "citation_resolved") (bool v.citation_resolved) (
        field (codes "cited") (arr (texts_of v.cited)) (
          field (codes "resolved") (arr (texts_of v.resolved)) (
            field (codes "failed") (arr (failures_of v.failed)) (
              field (codes "unknown") (arr (texts_of v.unknown))
                (field (codes "no_citation_claims") (bool v.no_citation_claims) end)))))))

abbrev pub map_given {ℓ κ} : {A : Type ℓ} {B : Type κ} → (A → B) → Option A → Option B
map_given f none = none
map_given f (some a) = some (f a)

unfoldable pub report_of : SubagentResult → Option Fields → Option ReceiptVerdict → Report
report_of r usage verdict = record {
  status = r.status;
  result = r.result;
  error = r.error;
  stop_reason = r.stop_reason;
  model_name = none;
  token_usage = map_given obj usage;
  tool_receipts = r.tool_receipts;
  receipt_verdict = map_given verdict_fields verdict;
}

unfoldable pub task_message : Text → Text → Fields → ToolMessage
task_message task_id content kwargs = record {
  id = none;
  content = str content;
  tool_call_id = some task_id;
  name = some (codes "task");
  status = codes "success";
  additional_kwargs = kwargs;
}

unfoldable pub answer_with : Text → Text → Option Fields → TaskOutcome
answer_with task_id content none = raises_value_error
answer_with task_id content (some kwargs) = answers (task_message task_id content kwargs)

-- The answer about a holder.
unfoldable pub answer : TaskEnv → Text → Option Text → SubagentResult → TaskOutcome
answer e task_id note r =
    let verdict = verdict_for e.matcher r.status r.tool_receipts r.result in
    answer_with task_id
      (format_subagent_result_message r.status r.result r.error r.stop_reason
        ++ verdict_line verdict
        ++ note_line note)
      (make_subagent_additional_kwargs e.sha256
        (report_of r (cumulative_usage r.token_usage_records) verdict))

abbrev pub outcome_of : Execution → TaskOutcome → TaskOutcome
outcome_of is_cancelled answer = raises_cancelled
outcome_of _ answer = answer

-- The usage of a cancelled task is not reported.
abbrev pub usage_after : Execution → Option Fields → Option Fields
usage_after is_cancelled usage = none
usage_after _ usage = usage

unfoldable pub run_task :
    TaskEnv
    → Text
    → Text
    → Option Text
    → List Step
    → Execution
    → Text
    → List TaskEvent × TaskOutcome
run_task e task_id description note steps x subagent_type =
    let r = settle e task_id x in
    (
      task_started (started_event task_id description subagent_type)
          ∷ (map task_running steps
              ++ (task_ended (
                    terminal_event r subagent_type
                      (usage_after x (cumulative_usage r.token_usage_records)))
                  ∷ [])),
      outcome_of x (answer e task_id note r),
    )

unfoldable pub unknown_type : TaskEnv → Text → Text → List TaskEvent × TaskOutcome
unknown_type e task_id subagent_type =
    let content =
      codes "Unknown subagent type '"
      ++ subagent_type
      ++ codes "'. Available: "
      ++ join (codes ", ") available_subagent_names in
    (
      [],
      answer_with task_id (codes "Task Failed. " ++ content) (
          make_subagent_additional_kwargs e.sha256 (record {
            status = failed;
            result = none;
            error = some content;
            stop_reason = none;
            model_name = none;
            token_usage = none;
            tool_receipts = none;
            receipt_verdict = none;
          })),
    )

unfoldable pub task_with :
    TaskEnv
    → Text
    → Text
    → Text
    → List Step
    → Execution
    → Option SubagentConfig × Option Text
    → List TaskEvent × TaskOutcome
task_with e task_id description subagent_type steps x (none, remark) =
    unknown_type e task_id subagent_type
task_with e task_id description subagent_type steps x (some config, remark) =
    run_task e task_id description remark steps x config.name

-- The tool, with the steps of the subagent and the end of its execution.
unfoldable pub task :
    TaskEnv → Text → Text → Text → List Step → Execution → List TaskEvent × TaskOutcome
task e task_id description subagent_type steps x =
    task_with e task_id description subagent_type steps x
      (resolve_subagent_config e.lower subagent_type)
