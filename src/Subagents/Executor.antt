-- ===== src/Subagents/Executor.antt =====
-- core/subagents/executor.py: one run of a subagent, from the stream of its graph to the holder of
-- its result.
pub mod Outcome
use git_agent.Base.{
  Text, codes, Bool, true, false, Option, none, some, List, [], ◌∷◌, ◌++◌, ℕ, map, is_nil, reverse,
  if◌then◌else◌, strip, show, join, ℤ, or_else, nat_eq, list_eq, ◌==◌, HasEq,
}
use git_agent.Value.{Value, Values, Fields, null, int, str, arr, nil, cons, field, end}
use git_agent.Message.{Message, AiMessage, ai, tool, human, system}
use git_agent.Security.Finding.{Finding, Host}
use git_agent.Security.Collect.{collect_findings}
use git_agent.Subagents.Citations.{extract_tool_receipts}
use git_agent.Subagents.Ledger.{receipt_fields, extract_citing_turn_receipts}
use git_agent.Subagents.FindingFields.{finding_fields}
use git_agent.Subagents.Report.{
  build_report_contract_section, build_acceptance_criteria_system_note,
  render_acceptance_criteria_block,
}
use git_agent.Subagents.Registry.{SubagentConfig}
use git_agent.Subagents.Lifecycle.{
  SubagentResult, Terminal, pending, running, completed, failed, try_set_terminal,
  update_token_usage_records, update_tool_receipts,
}
use git_agent.Subagents.Steps.{Step, Captured, capture_new_step_messages}

-- `json.dumps`, the functions behind the findings, the text of a LangChain message, the clock, and
-- the text of the exception of a finding whose arguments cannot be read.
pub record Env : Type 0 where
  pub json : Value → Text
  pub host : Host
  pub text_of : AiMessage → Text
  pub now : ℕ
  pub bad_finding : Text

-- The system and the human message.
unfoldable pub build_messages : SubagentConfig → Text → Values → Text × Text
build_messages config task criteria =
    let block = render_acceptance_criteria_block criteria in
    let system_parts = config.system_prompt ∷ build_report_contract_section ∷ [] in
    if is_nil block then (join (codes "\n\n") system_parts, join (codes "\n\n") (task ∷ [])) else (
      join (codes "\n\n") (system_parts ++ (build_acceptance_criteria_system_note ∷ [])),
      join (codes "\n\n") (task ∷ block ∷ []),
    )

unfoldable pub no_response : Text
no_response = codes "No response generated"

-- The loop over `reversed(messages)`, which ends at the last AI message.
unfoldable pub last_answer : (AiMessage → Text) → List Message → Text
last_answer text_of [] = no_response
last_answer text_of (ai m ∷ ms) = if is_nil (strip (text_of m)) then no_response else text_of m
last_answer text_of (m ∷ ms) = last_answer text_of ms

unfoldable pub extract_final_result : (AiMessage → Text) → Option (List Message) → Text
extract_final_result text_of none = no_response
extract_final_result text_of (some messages) = last_answer text_of (reverse messages)

-- A state of the stream, with the usage that the callbacks have counted by then.
pub record Chunk : Type 0 where
  pub messages : List Message
  pub records : List Fields

-- How the stream ends after its chunks.
pub data StreamEnd : Type 0 where
  finishes : StreamEnd
  recursion_limit : StreamEnd
  cancelled : StreamEnd
  fails : Text → StreamEnd

-- The variables of `arun`, and the steps that were given to `on_step`.
pub record Progress : Type 0 where
  pub result : SubagentResult
  pub final_state : Option (List Message)
  pub captured : Captured
  pub cursor : ℕ
  pub steps : List Step

unfoldable pub begin_run : Env → Text → Progress
begin_run e task_id = record {
  result = record {
    task_id = task_id;
    status = running;
    result = none;
    error = none;
    stop_reason = none;
    started_at = some e.now;
    completed_at = none;
    token_usage_records = [];
    tool_receipts = none;
    findings = [];
  };
  final_state = none;
  captured = record { steps = []; seen_ids = [] };
  cursor = 0;
  steps = [];
}

-- The state before the findings are collected.
unfoldable pub observe_chunk : Env → Text → Chunk → Progress → Progress
observe_chunk e task_id c p =
    let captures = capture_new_step_messages e.json task_id c.messages p.captured p.cursor in
    record {
      result = update_token_usage_records c.records (
          update_tool_receipts (some (map receipt_fields (extract_tool_receipts c.messages)))
            p.result);
      final_state = some c.messages;
      captured = captures.2;
      cursor = captures.0;
      steps = p.steps ++ captures.1;
    }

-- `result.findings = collect_findings(messages)`; a finding that cannot be read is an exception.
unfoldable pub put_findings : Text → Option (List Finding) → Progress → Progress × Option Text
put_findings why none p = (p, some why)
put_findings why (some fs) p =
    (record p { result = record p.result { findings = map finding_fields fs } }, none)

unfoldable pub on_chunk : Env → Text → Chunk → Progress → Progress × Option Text
on_chunk e task_id c p =
    put_findings e.bad_finding (collect_findings e.host c.messages) (observe_chunk e task_id c p)

-- The loop over the stream, which an exception ends.
abbrev pub stop_or : Option Text → Progress → Progress × StreamEnd → Progress × StreamEnd
stop_or none p rest = rest
stop_or (some why) p rest = (p, fails why)

unfoldable pub run_chunks : Env → Text → List Chunk → StreamEnd → Progress → Progress × StreamEnd
run_chunks e task_id [] ending p = (p, ending)
run_chunks e task_id (c ∷ cs) ending p =
    let here = on_chunk e task_id c p in
    let rest = run_chunks e task_id cs ending here.0 in stop_or here.1 here.0 rest

unfoldable pub harvest_receipts : Option (List Fields) → List Fields → Option (List Fields)
harvest_receipts (some snapshot) extracted = some snapshot
harvest_receipts none extracted = if is_nil extracted then some [] else none

abbrev pub map_some {ℓ κ} : {A : Type ℓ} {B : Type κ} → (A → B) → Option A → Option B
map_some f none = none
map_some f (some a) = some (f a)

unfoldable pub harvest : Option (List Message) → Option (List Fields)
harvest none = none
harvest (some messages) =
    harvest_receipts (map_some (map receipt_fields) (extract_citing_turn_receipts messages))
      (map receipt_fields (extract_tool_receipts messages))

-- The turn limit: an answer is kept, as a capped result.
unfoldable pub capped : SubagentConfig → Text → Option (List Fields) → List Fields → Terminal
capped config partial receipts records =
    if partial == no_response
    then record {
      status = failed;
      result = none;
      error = some (codes "Reached max_turns=" ++ show config.max_turns);
      stop_reason = some (codes "turn_capped");
      tool_receipts = receipts;
      token_usage_records = some records;
    }
    else record {
      status = completed;
      result = some partial;
      error = none;
      stop_reason = some (codes "turn_capped");
      tool_receipts = receipts;
      token_usage_records = some records;
    }

unfoldable pub failure : Text → Option (List Fields) → List Fields → Terminal
failure why receipts records = record {
  status = failed;
  result = none;
  error = some why;
  stop_reason = none;
  tool_receipts = receipts;
  token_usage_records = some records;
}

unfoldable pub success : Text → Option (List Fields) → List Fields → Terminal
success answer receipts records = record {
  status = completed;
  result = some answer;
  error = none;
  stop_reason = none;
  tool_receipts = receipts;
  token_usage_records = some records;
}

-- The holder that is returned; `none` is the `CancelledError` that is passed on.
unfoldable pub end_run :
    Env → SubagentConfig → List Fields → Progress → StreamEnd → Option SubagentResult
end_run e config records p finishes =
    some
      (try_set_terminal e.now
        (success (extract_final_result e.text_of p.final_state) (harvest p.final_state) records)
        p.result).0
end_run e config records p recursion_limit =
    some
      (try_set_terminal e.now
        (capped config (extract_final_result e.text_of p.final_state) (harvest p.final_state)
          records)
        p.result).0
end_run e config records p cancelled = none
end_run e config records p (fails why) =
    some (try_set_terminal e.now (failure why (harvest p.final_state) records) p.result).0

-- `arun`, with the chunks and the end of the stream, and the usage that is counted at its end.
unfoldable pub arun :
    Env
    → SubagentConfig
    → Text
    → List Chunk
    → StreamEnd
    → List Fields
    → Progress × Option SubagentResult
arun e config task_id chunks ending records =
    let (p, stop) = run_chunks e task_id chunks ending (begin_run e task_id) in
    (p, end_run e config records p stop)
