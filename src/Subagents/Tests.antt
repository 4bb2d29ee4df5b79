-- ===== src/Subagents/Tests.antt =====
-- The subagents' components at concrete inputs.
use git_agent.Base.{
  ◌++◌, ◌+◌, ◌≤◌, max, length, pos, All, ◌↔◌, Distinct, pair_eq, list_eq, option_eq, nat_eq, Text,
  codes, true, none, some, List, [], ◌∷◌, ◌≡◌, refl, ◌&&◌, replicate, if◌then◌else◌,
}
use git_agent.Value.{Value, end, obj, int, field, str}
use git_agent.Subagents.Lifecycle.{
  SubagentStatus, running, completed, failed, is_terminal, SubagentResult, Terminal,
}
use git_agent.Subagents.Lifecycle.FirstWriter.{
  Call, terminal_call, usage_call, perform_all, wins, one_if, wins-perform_all,
}
use git_agent.Message.{Message, tool}
use git_agent.Subagents.Citations.{
  Matcher, extract_tool_receipts, parse_citations, parse_from, index_from, verify_receipt_citations,
}
use git_agent.Subagents.Citations.Verdict.{IsBacked, citation_resolved-IsBacked}
use git_agent.Subagents.Ledger.{render_tool_receipts_with_snapshot}
use git_agent.Subagents.Ledger.Budget.{length-render_tool_receipts_with_snapshot}
use git_agent.Subagents.Steps.{Captured, capture_new_step_messages}
use git_agent.Subagents.Steps.Capture.{IsSeen}
use git_agent.Subagents.Steps.Once.{IsStepOf, capture_new_step_messages-once}
use git_agent.Subagents.Contract.{
  Report, make_subagent_additional_kwargs, read_subagent_result_metadata, is_known_stop,
  is_sha256_hex,
}
use git_agent.Subagents.Contract.RoundTrip.{learned, read-make}
use git_agent.Subagents.Capacity
use git_agent.Subagents.Capacity.{Capacity, Reachable, start, next, comes, acquires, leaves}
use git_agent.Subagents.Capacity.Bounds.{IsBounded, Reachable-IsBounded}

abbrev holder : SubagentStatus → SubagentResult
holder s = record {
  task_id = codes "t";
  status = s;
  result = none;
  error = none;
  stop_reason = none;
  started_at = some 1;
  completed_at = none;
  token_usage_records = [];
  tool_receipts = none;
  findings = [];
}

abbrev write : SubagentStatus → Terminal
write s = record {
  status = s;
  result = some (codes "done");
  error = none;
  stop_reason = none;
  tool_receipts = none;
  token_usage_records = none;
}

abbrev race : List Call
race =
    usage_call []
    ∷ terminal_call 2 (write completed)
    ∷ terminal_call 3 (write failed)
    ∷ usage_call []
    ∷ []

wins-perform_all_example :
    wins race (holder running) ≡ one_if (is_terminal (perform_all race (holder running)).status)
unfolding is_terminal
wins-perform_all_example = wins-perform_all race (holder running) refl

-- A hash of the right form.
abbrev zeros : Text → Text
zeros t = replicate 64 48

zeros_hex : (t : Text) → is_sha256_hex (zeros t) ≡ true
unfolding is_sha256_hex
zeros_hex t = refl

abbrev report : Report
report = record {
  status = completed;
  result = some (codes "All clear");
  error = some (codes "ignored");
  stop_reason = some (codes "turn_capped");
  model_name = some [];
  token_usage = some (obj end);
  tool_receipts = some (end ∷ []);
  receipt_verdict = none;
}

read-make_example : read_subagent_result_metadata (make_subagent_additional_kwargs zeros report) ≡ (
    if is_terminal completed && is_known_stop (some (codes "turn_capped"))
    then some (learned zeros report)
    else none)
read-make_example = read-make zeros report zeros_hex

-- One runs, and one waits.
abbrev one_waits : Capacity
one_waits = record { max_running = 1; max_queued = 1; free = 0; queued = 1; running = 1 }

reach_one_waits : Reachable 1 1 one_waits
unfolding Capacity.init Capacity.step Capacity.admit Capacity.is_locked Capacity.with_counts
reach_one_waits = next comes (next comes start refl) refl

abbrev one_free : Capacity
one_free = record { max_running = 1; max_queued = 1; free = 1; queued = 1; running = 0 }

reach_one_free : Reachable 1 1 one_free
unfolding Capacity.step Capacity.with_counts
reach_one_free = next leaves reach_one_waits refl

Reachable-IsBounded_example : IsBounded 1 1 one_waits
Reachable-IsBounded_example = Reachable-IsBounded 1 1 reach_one_waits

-- A matcher that finds `[r1]` and `[r1 sandbox_run]` in every report.
abbrev matcher : Matcher
matcher = record {
  citations = λ t. (codes "1", none) ∷ (codes "1", some (codes "sandbox_run")) ∷ [];
  int_of = λ t. 1;
  has_action_claims = λ t. true;
}

abbrev stamped : List Message
stamped =
    tool (record {
      id = none;
      content = str [];
      tool_call_id = some (codes "a");
      name = some (codes "sandbox_run");
      status = codes "success";
      additional_kwargs =
          field (codes "tool_receipt")
            (obj (
              field (codes "tool_call_id") (str (codes "a")) (
                field (codes "tool_name") (str (codes "sandbox_run")) (
                  field (codes "status") (str (codes "success")) (
                    field (codes "args_sha256") (str []) (
                      field (codes "output_sha256") (str []) (
                        field (codes "created_at") (str [])
                          (field (codes "output_bytes") (int (pos 5)) end))))))))
            end;
    })
    ∷ []

citation_resolved-IsBacked_example :
    ((verify_receipt_citations matcher [] (extract_tool_receipts stamped)).citation_resolved ≡ true)
    ↔ All (IsBacked (index_from [] (extract_tool_receipts stamped))) (parse_citations matcher [])
unfolding parse_citations parse_from codes
citation_resolved-IsBacked_example =
    citation_resolved-IsBacked matcher [] (extract_tool_receipts stamped) refl

abbrev nothing_captured : Captured
nothing_captured = record { steps = []; seen_ids = [] }

abbrev no_json : Value → Text
no_json v = []

-- An answer of a tool, which the stream shows twice.
abbrev answer : Message
answer = tool (record {
  id = some (codes "m1");
  content = str (codes "ok");
  tool_call_id = some (codes "a");
  name = some (codes "sandbox_run");
  status = codes "success";
  additional_kwargs = end;
})

abbrev streamed : List Message
streamed = answer ∷ answer ∷ []

capture_new_step_messages-once_example :
    let r = capture_new_step_messages no_json (codes "t") streamed nothing_captured 0 in
    ([] ++ r.1 ≡ r.2.steps)
    × All (IsStepOf no_json (codes "t") streamed) r.1
    × (length r.1 + length nothing_captured.seen_ids ≡ length r.2.seen_ids)
    × Distinct r.2.seen_ids
    × All (IsSeen r.2) streamed
    × (capture_new_step_messages no_json (codes "t") streamed r.2 1 ≡ (2, [], r.2))
capture_new_step_messages-once_example =
    capture_new_step_messages-once no_json (codes "t") streamed nothing_captured 0 1
      (refl, (refl, tt)) tt tt

length-render_tool_receipts_with_snapshot_example :
    length (render_tool_receipts_with_snapshot 300 (extract_tool_receipts stamped)).0 ≤ max 4 300
length-render_tool_receipts_with_snapshot_example =
    length-render_tool_receipts_with_snapshot 300 (extract_tool_receipts stamped)
