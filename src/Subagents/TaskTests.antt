-- ===== src/Subagents/TaskTests.antt =====
-- Delegations at concrete inputs.
use git_agent.Base.{
  Text, codes, true, false, Option, none, some, List, [], ◌∷◌, ◌++◌, ◌≡◌, refl, map, or_else,
  replicate, nat_eq, list_eq,
}
use git_agent.Value.{str, end}
use git_agent.Message.{Message, ai}
use git_agent.Subagents.Citations.{Matcher}
use git_agent.Subagents.Ledger.{receipt_fields, extract_citing_turn_receipts}
use git_agent.Subagents.Lifecycle.{SubagentResult, is_terminal}
use git_agent.Subagents.Contract.{is_sha256_hex}
use git_agent.Subagents.Registry.{general_purpose}
use git_agent.Subagents.Executor.{
  Env, Chunk, finishes, Progress, begin_run, observe_chunk, put_findings, on_chunk, run_chunks,
  map_some, end_run, arun,
}
use git_agent.Security.Finding.{Host}
use git_agent.Security.Collect.{collect_findings, add_messages, add_message, add_calls}
use git_agent.Subagents.Executor.Outcome.{receipts_in, arun-harvest}
use git_agent.Subagents.Delegation.{
  TaskEnv, times_out, task_started, task_running, task_ended, started_event, terminal_event,
  cumulative_usage, settle,
}
use git_agent.Subagents.TaskTool.{usage_after, task}
use git_agent.Subagents.TaskTool.Reported.{OutcomeFits, task-OutcomeFits}

abbrev same_text : Text → Text
same_text t = t

abbrev host : Host
host = record { lower = same_text; repr = same_text; str_of = λ v. []; int_of = λ v. none }

abbrev env : Env
env = record { json = λ v. []; host = host; text_of = λ m. codes "done"; now = 7; bad_finding = [] }

abbrev last_words : List Message
last_words =
    ai (record {
      id = some (codes "m1");
      content = str (codes "done");
      tool_calls = [];
      invalid_tool_calls = [];
      additional_kwargs = end;
      response_metadata = end;
      usage_metadata = none;
    })
    ∷ []

abbrev one_chunk : List Chunk
one_chunk = record { messages = last_words; records = [] } ∷ []

abbrev the_run : Progress × Option SubagentResult
the_run = arun env general_purpose (codes "t") one_chunk finishes []

abbrev the_holder : SubagentResult
the_holder = or_else the_run.1 (begin_run env (codes "t")).result

arun-harvest_example :
    (is_terminal the_holder.status ≡ true)
    × (the_holder.tool_receipts
        ≡ some (
            or_else
              (map_some (map receipt_fields) (extract_citing_turn_receipts last_words))
              (receipts_in last_words)))
unfolding arun run_chunks on_chunk put_findings collect_findings add_messages add_message add_calls
    end_run observe_chunk
arun-harvest_example =
    arun-harvest env general_purpose (codes "t") one_chunk finishes [] the_holder last_words refl
      refl

-- A hash of 64 digits.
abbrev sixty_four : Text → Text
sixty_four t = replicate 64 48

sixty_four_hex : (t : Text) → is_sha256_hex (sixty_four t) ≡ true
unfolding is_sha256_hex
sixty_four_hex t = refl

abbrev no_matches : Matcher
no_matches = record { citations = λ t. []; int_of = λ t. 0; has_action_claims = λ t. false }

abbrev task_env : TaskEnv
task_env = record {
  sha256 = sixty_four;
  lower = same_text;
  matcher = no_matches;
  now = 7;
  exec_timeout = codes "600";
}

task-OutcomeFits_example :
    let r = settle task_env (codes "t") times_out in
    ((task task_env (codes "t") (codes "audit") (codes "general") [] times_out).0
      ≡ task_started (started_event (codes "t") (codes "audit") general_purpose.name)
        ∷ (map task_running []
            ++ (task_ended (
                  terminal_event r general_purpose.name
                    (usage_after times_out (cumulative_usage r.token_usage_records)))
                ∷ [])))
    × OutcomeFits times_out r
        (task task_env (codes "t") (codes "audit") (codes "general") [] times_out).1
task-OutcomeFits_example =
    task-OutcomeFits task_env (codes "t") (codes "audit") (codes "general") [] times_out
      sixty_four_hex tt
