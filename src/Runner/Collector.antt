-- ===== src/Runner/Collector.antt =====
-- core/runner/activity.py: the collector that folds the chunks of a turn's stream into frames.
use git_agent.Base.{
  Text, codes, Bool, Option, none, some, List, [], ◌∷◌, ◌>>=◌, ℕ, ◌+◌, if◌then◌else◌, take, strip,
  join, Dict, get, put, or_else, nat_eq, list_eq, option_eq, ◌==◌,
}
use git_agent.Value.{Value, Values, Fields, null, str, arr, nil, cons, field_get, truthy}
use git_agent.Runner.Content.{is_str}
use git_agent.Runner.WorkLog.{Python, ActivityFrame, frame_of, get_or_null, work}

pub record Collector : Type 0 where
  pub findings : ℕ
  pub reply : List Text
  -- the status of each task
  pub tasks : Dict Text Text

unfoldable pub init : Collector
init = record { findings = 0; reply = []; tasks = [] }

unfoldable pub run_started : ActivityFrame
run_started = frame_of (codes "run_started")

unfoldable pub run_finished : Collector → ActivityFrame
run_finished c = record (frame_of (codes "run_finished")) { findings_count = some c.findings }

unfoldable pub chat_user : Text → ActivityFrame
chat_user text = record (frame_of (codes "chat_user")) { text = some text }

unfoldable pub reply_frame : Text → Option ActivityFrame
reply_frame [] = none
reply_frame (c ∷ t) = some (record (frame_of (codes "chat_agent")) { text = some (c ∷ t) })

unfoldable pub chat_agent : Collector → Option ActivityFrame
chat_agent c = reply_frame (strip (join (codes "\n\n") c.reply))

-- `str(error)[:500]` of the text of the error
unfoldable pub run_failed : Collector → Text → ActivityFrame
run_failed c error = record (frame_of (codes "run_failed")) {
  description = some (str (take 500 error));
  findings_count = some c.findings;
}

-- A value that is not `None`.
unfoldable pub unless_null : Value → Option Value
unless_null null = none
unless_null v = some v

-- `_TERMINAL`
unfoldable pub terminal_of : Text → Option (Text × Text)
terminal_of dtype =
    if dtype == codes "task_completed"
    then some (codes "task_finished", codes "done")
    else (if dtype == codes "task_failed"
        then some (codes "task_failed", codes "failed")
        else (if dtype == codes "task_timed_out"
            then some (codes "task_failed", codes "timeout")
            else (if dtype == codes "task_cancelled"
                then some (codes "task_failed", codes "failed")
                else none)))

abbrev pub set_status : Text → Text → Collector → Collector
set_status id status c = record c { tasks = put id status c.tasks }

-- `task_started`
unfoldable pub on_started : Collector → Text → Fields → Collector × List ActivityFrame
on_started c id d = (
  set_status id (codes "queued") c,
  record (frame_of (codes "task_started")) {
    task_id = some id;
    description = unless_null (get_or_null (codes "description") d);
    status = some (codes "queued");
  }
      ∷ [],
)

-- The step of the subagent, as the work log.
unfoldable pub step_frames : Python → Text → Fields → Option (List ActivityFrame)
step_frames p id d =
    let tool_step =
      work p (some id) null null
        (some (get_or_null (codes "tool_name") d, get_or_null (codes "text") d)) null in
    let ai_step =
      work p (some id) (get_or_null (codes "text") d) (get_or_null (codes "tool_calls") d) none
        (get_or_null (codes "usage") d) in
    if is_str (codes "tool") (field_get (codes "kind") d)
    then tool_step
    else (if is_str (codes "ai") (field_get (codes "kind") d) then ai_step else some [])

unfoldable pub working_frame : Text → ActivityFrame
working_frame id = record (frame_of (codes "task_started")) {
  task_id = some id;
  status = some (codes "working");
}

-- `task_running`: the first one after `queued` shows the task as working.
unfoldable pub on_running :
    Python → Collector → Text → Fields → Option (Collector × List ActivityFrame)
on_running p c id d =
    let first : Bool = get id c.tasks == some (codes "queued") in
    step_frames p id d >>= λ fs.
    some (if first then (set_status id (codes "working") c, working_frame id ∷ fs) else (c, fs))

-- `len(findings) if isinstance(findings, list) else None`
unfoldable pub count_values : Values → ℕ
count_values nil = 0
count_values (cons v vs) = count_values vs + 1

unfoldable pub listed_count : Value → Option ℕ
listed_count (arr vs) = some (count_values vs)
listed_count _ = none

unfoldable pub on_terminal :
    Collector → Text → Fields → Option (Text × Text) → Collector × List ActivityFrame
on_terminal c id d none = (c, [])
on_terminal c id d (some (kind, status)) = (
  set_status id status c,
  record (frame_of kind) {
    task_id = some id;
    status = some status;
    description = unless_null (get_or_null (codes "error") d);
    findings_count = listed_count (get_or_null (codes "findings") d);
  }
      ∷ [],
)

-- An event of the task with this id.
unfoldable pub on_task :
    Python → Collector → Text → Text → Fields → Option (Collector × List ActivityFrame)
on_task p c dtype id d =
    let running = on_running p c id d in
    if dtype == codes "task_started"
    then some (on_started c id d)
    else (if dtype == codes "task_running"
        then running
        else some (on_terminal c id d (terminal_of dtype)))

-- The id of a task is a text, as the type of `_tasks` says; another value is left out of the model.
unfoldable pub custom : Python → Collector → Fields → Option (Collector × List ActivityFrame)
custom p c d = elim (get_or_null (codes "task_id") d) [
  | str (x ∷ id) ↦ on_task p c (p.str_of (or_else (field_get (codes "type") d) (str []))) (x ∷ id) d
  | v ↦ if truthy v then none else some (c, [])
]
