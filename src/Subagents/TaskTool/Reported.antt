-- ===== src/Subagents/TaskTool/Reported.antt =====
-- What a delegation reports.
use git_agent.Base.{
  Text, true, Option, none, some, List, [], ◌∷◌, ◌++◌, ◌≡◌, refl, sym, ap, ◌∙◌, map, ◌&&◌,
  if◌then◌else◌, if_true, nat_eq, list_eq, ◌==◌, subst,
}
use git_agent.Value.{Fields}
use git_agent.Message.{ToolMessage}
use git_agent.Subagents.Registry.{general_purpose, type_note}
use git_agent.Subagents.Registry.Resolve.{resolve_subagent_config-general_purpose}
use git_agent.Subagents.Lifecycle.{SubagentResult, is_terminal, set_terminal, try_set_terminal}
use git_agent.Subagents.Contract.{
  Report, StructuredSubagentResult, status_value, is_known_stop, is_sha256_hex,
  make_subagent_additional_kwargs, read_subagent_result_metadata,
}
use git_agent.Subagents.Contract.RoundTrip.{learned, read-make}
use git_agent.Subagents.Steps.{Step}
use git_agent.Subagents.Delegation.{
  TaskEnv, Execution, returns, not_admitted, times_out, is_cancelled, task_started, task_running,
  task_ended, TaskOutcome, answers, raises_cancelled, fresh_holder, ended_with, settle,
  cumulative_usage, terminal_event, started_event, verdict_for,
}
use git_agent.Subagents.TaskTool.{
  report_of, task_message, answer_with, answer, outcome_of, usage_after, run_task, task_with, task,
}

-- A holder that its metadata can be made of.
abbrev pub IsSettled : SubagentResult → Type 0
IsSettled r = (is_terminal r.status ≡ true) × (is_known_stop r.stop_reason ≡ true)

-- The holder of an executor that returned is settled.
abbrev pub EndsSettled : Execution → Type 0
EndsSettled (returns r) = IsSettled r
EndsSettled _ = Unit

-- The message tells the status of the holder.
abbrev pub Tells : SubagentResult → TaskOutcome → Type 0
Tells r o =
    (m : ToolMessage) × (s : StructuredSubagentResult) × (o ≡ answers m)
    × (read_subagent_result_metadata (some m.additional_kwargs) ≡ some s)
    × (s.status ≡ status_value r.status)

-- A cancellation is passed on, everything else is told.
abbrev pub OutcomeFits : Execution → SubagentResult → TaskOutcome → Type 0
OutcomeFits is_cancelled r o = o ≡ raises_cancelled
OutcomeFits _ r o = Tells r o

settle-IsSettled :
    (e : TaskEnv) (task_id : Text) (x : Execution) → EndsSettled x → IsSettled (settle e task_id x)
unfolding settle try_set_terminal set_terminal fresh_holder ended_with is_terminal is_known_stop
settle-IsSettled e task_id (returns r) h = h
settle-IsSettled e task_id (not_admitted why) h = (refl, refl)
settle-IsSettled e task_id times_out h = (refl, refl)
settle-IsSettled e task_id is_cancelled h = (refl, refl)

-- Metadata that can be read was made.
made_of_read :
    (o : Option Fields) (s : StructuredSubagentResult)
    → read_subagent_result_metadata o ≡ some s
    → (d : Fields) × (o ≡ some d) × (read_subagent_result_metadata (some d) ≡ some s)
unfolding read_subagent_result_metadata
made_of_read none s h = cc
made_of_read (some d) s h = (d, refl, h)

answer_with-Tells :
    (e : TaskEnv) (task_id content : Text) (r : SubagentResult) (report : Report)
    → ((t : Text) → is_sha256_hex (e.sha256 t) ≡ true)
    → report.status ≡ r.status
    → (is_terminal report.status && is_known_stop report.stop_reason) ≡ true
    → Tells r (answer_with task_id content (make_subagent_additional_kwargs e.sha256 report))
unfolding answer_with task_message
answer_with-Tells e task_id content r report hash same ok =
    let (d, made, read) =
      made_of_read (make_subagent_additional_kwargs e.sha256 report) (learned e.sha256 report)
        (read-make e.sha256 report hash ∙ if_true _ _ _ ok) in
    (
      task_message task_id content d,
      learned e.sha256 report,
      ap (answer_with task_id content) made,
      read,
      ap status_value same,
    )

answer-Tells :
    (e : TaskEnv) (task_id : Text) (remark : Option Text) (r : SubagentResult)
    → ((t : Text) → is_sha256_hex (e.sha256 t) ≡ true)
    → IsSettled r
    → Tells r (answer e task_id remark r)
unfolding answer report_of
answer-Tells e task_id remark r hash h =
    let verdict = verdict_for e.matcher r.status r.tool_receipts r.result in
    answer_with-Tells e task_id _ r (report_of r (cumulative_usage r.token_usage_records) verdict)
      hash refl (both h)
  where
    both : IsSettled r → (is_terminal r.status && is_known_stop r.stop_reason) ≡ true
    both (t, k) = ap (λ b. b && is_known_stop r.stop_reason) t ∙ k

outcome_of-Fits :
    (x : Execution) (r : SubagentResult) (o : TaskOutcome)
    → Tells r o
    → OutcomeFits x r (outcome_of x o)
outcome_of-Fits (returns q) r o h = h
outcome_of-Fits (not_admitted why) r o h = h
outcome_of-Fits times_out r o h = h
outcome_of-Fits is_cancelled r o h = refl

-- The tool `task` writes the start of the task, the steps of the subagent and one final event with
-- the status of the holder, in this order, under any subagent type; then it passes a cancellation
-- on, or answers with a message whose metadata tells that status. The hash gives 64 hexadecimal
-- digits, and a holder that the executor returns is terminal, with a known stop reason or none.
pub task-OutcomeFits :
    (e : TaskEnv) (task_id description subagent_type : Text) (steps : List Step) (x : Execution)
    → ((t : Text) → is_sha256_hex (e.sha256 t) ≡ true)
    → EndsSettled x
    → let r = settle e task_id x in
      ((task e task_id description subagent_type steps x).0
        ≡ task_started (started_event task_id description general_purpose.name)
          ∷ (map task_running steps
              ++ (task_ended (
                    terminal_event r general_purpose.name
                      (usage_after x (cumulative_usage r.token_usage_records)))
                  ∷ [])))
      × OutcomeFits x r (task e task_id description subagent_type steps x).1
unfolding task task_with run_task
task-OutcomeFits e task_id description subagent_type steps x hash h =
    let r = settle e task_id x in
    let resolved = resolve_subagent_config-general_purpose e.lower subagent_type in
    let remark : Option Text =
      if general_purpose.name == subagent_type
      then none
      else some (type_note subagent_type general_purpose.name) in
    let run = ap (task_with e task_id description subagent_type steps x) resolved in
    (
      ap (λ y. y.0) run,
      subst (λ y. OutcomeFits x r y.1) (sym run)
          (outcome_of-Fits x r (answer e task_id remark r)
            (answer-Tells e task_id remark r hash (settle-IsSettled e task_id x h))),
    )
