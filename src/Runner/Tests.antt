-- ===== src/Runner/Tests.antt =====
-- The runner at concrete inputs.
use git_agent.Base.{
  Text, codes, Bool, true, false, Option, none, some, List, [], ◌∷◌, ◌++◌, ◌≡◌, refl, All, ℕ, ◌≤◌,
  ◌+◌, show, or_else, get, put, list_beq, option_beq, Distinct, not, contains, ==_refl, nat_eq,
  list_eq, pair_eq, int_eq, ℤ, pos, arith, HasEq,
}
use git_agent.Runner.Event.{Event}
use git_agent.Runner.Chat.{ChatWorld, replied, chat}
use git_agent.Runner.Chat.Frames.{IsChatOrderly, chat-IsChatOrderly}
use git_agent.Runner.Feed.{close}
use git_agent.Runner.Feed.Readers.{numbered, IsComplete}
use git_agent.Runner.Feed.Cancelled.{
  Move, emit_begins, emit_ends, emit_cancelled, reader_comes, fresh, run_moves, begun, ended,
  close-run_moves-All-IsComplete,
}
use git_agent.Runner.Terminal.{Shell, separator, given_text, parse_terminal_output}
use git_agent.Runner.Terminal.RoundTrip.{parse_terminal_output-append}
use git_agent.Runner.WorkLog.{Python, ActivityFrame, get_or_null}
use git_agent.Runner.Content.{is_str}
use git_agent.Runner.Collector.{
  Collector, custom, on_task, on_started, on_running, step_frames, terminal_of, on_terminal,
}
use git_agent.Runner.Collector
use git_agent.Runner.Stream.{frames, frames_all}
use git_agent.Runner.Stream.Shown.{times_shown}
use git_agent.Runner.Stream.Tasks.{frames_all-times_shown}
use git_agent.Runner.Wire.{Convert, to_wire, parse_event}
use git_agent.Runner.Wire.RoundTrip.{normalized, parse_event-to_wire}
use git_agent.Runner.Slots.{
  Slots, ClaimResult, Reachable, start, next, arrived, acquired, found_raised, asked, answered,
  popped, released, busy, init,
}
use git_agent.Runner.Slots.Balance.{IsSound, Reachable-IsSound}
use git_agent.Runner.Turn.{World, TurnEnd, done, not_provisioned, handle_event}
use git_agent.Runner.Turn.Frames.{IsOrderly, handle_event-IsOrderly}
use git_agent.Message.{Message, ToolCall, ai, human}
use git_agent.Value.{Value, str, int, obj, field, end, field_get, truthy}
use git_agent.Runner.History.{answered_ids, repaired_messages}
use git_agent.Runner.History.Repair.{IsClean, repaired_messages-IsClean}

abbrev call : Text → ToolCall
call id = record { id = some id; name = codes "sandbox_run"; args = end }

-- A turn that was cancelled with one call open and one truncated, and the next user message.
abbrev interrupted : List Message
interrupted =
    ai record {
      id = some (codes "m1");
      content = str (codes "running it ");
      tool_calls = call (codes "a") ∷ [];
      invalid_tool_calls = call (codes "b") ∷ [];
      additional_kwargs = end;
      response_metadata = end;
      usage_metadata = none;
    }
    ∷ human (record { id = none; content = str (codes "go on"); additional_kwargs = end })
    ∷ []

abbrev no_str : Value → Text
no_str v = []

repaired_messages-IsClean_example :
    All
      (IsClean (answered_ids (repaired_messages no_str interrupted).0))
      (repaired_messages no_str interrupted).0
repaired_messages-IsClean_example = repaired_messages-IsClean no_str interrupted

abbrev claimed : ClaimResult
claimed = record { outcome = codes "claimed"; holder_address = none }

-- A runner with two slots, on which two tasks have looked for instance 7: one has raised it, and the
-- other holds a permit and will meet it raised.
abbrev seven_raised : Slots
seven_raised = record {
  slots = 2;
  free = 0;
  instances = 7 ∷ [];
  acquiring = [];
  waiting = 7 ∷ [];
  claiming = none;
  stopping = [];
  lost = 0;
}

abbrev seven_found : Slots
seven_found = record seven_raised { free = 1; waiting = [] }

reach_raised : Reachable 2 seven_raised
unfolding git_agent.Runner.Slots.step git_agent.Runner.Slots.init git_agent.Runner.Slots.arrive
    git_agent.Runner.Slots.acquire git_agent.Runner.Slots.ask git_agent.Runner.Slots.leave_lock
    git_agent.Runner.Slots.finish_claim git_agent.Runner.Slots.is_ours git_agent.Base.remove_one
    git_agent.Base.list_beq codes
reach_raised =
    next (acquired 7)
      (next (answered claimed)
        (next (asked 7)
          (next (acquired 7) (next (arrived 7) (next (arrived 7) start refl) refl) refl) refl)
        refl)
      refl

reach_found : Reachable 2 seven_found
unfolding git_agent.Runner.Slots.step git_agent.Runner.Slots.give_up git_agent.Base.remove_one
reach_found = next (found_raised 7) reach_raised refl

Reachable-IsSound_example : IsSound 2 seven_found
Reachable-IsSound_example = Reachable-IsSound 2 reach_found

abbrev push : Event
push = record {
  event_id = pos 1;
  instance_id = pos 7;
  thread_id = codes "t";
  repository_id = pos 3;
  provider = codes "github";
  action = codes "push";
  dedup_key = codes "k";
  commit_sha = some (codes "abc");
  ref = none;
  trace_id = [];
  before_sha = none;
  base_sha = none;
  head_sha = none;
  pr_number = none;
  pr_title = none;
  pr_body = none;
  changed_files = [];
}

abbrev world : TurnEnd → World
world ending = record {
  raised_here = true;
  peek = claimed;
  refusal = none;
  has_context = true;
  chunks = codes "x" ∷ [];
  turn_end = ending;
  forwards = λ a. false;
}

handle_event-IsOrderly_example : IsOrderly true (handle_event true (world done) push)
handle_event-IsOrderly_example = handle_event-IsOrderly true (world done) push

-- A journal that lists the keys that it has marked.
abbrev begins : List (ℤ × Text) → ℤ × Text → Bool
begins j k = not (contains k j)

abbrev mark : List (ℤ × Text) → ℤ × Text → List (ℤ × Text)
mark j k = k ∷ j

begins-mark : (j : List (ℤ × Text)) (k : ℤ × Text) → begins (mark j k) k ≡ false
begins-mark j k = rw (==_refl k) refl

begins-stays :
    (j : List (ℤ × Text)) (k l : ℤ × Text) → begins j k ≡ false → begins (mark j l) k ≡ false
begins-stays j k l h = ground arith

unprovisioned : World × Event
unprovisioned = (world (not_provisioned (codes "none")), push)

abbrev text_only : Value → Text
text_only (str s) = s
text_only _ = []

abbrev int_only : Value → Option ℤ
int_only (int n) = some n
int_only _ = none

abbrev convert : Convert
convert = record { int_of = int_only; str_of = text_only }

parse_event-to_wire_example : parse_event convert (to_wire push) ≡ some (normalized push)
parse_event-to_wire_example = parse_event-to_wire convert (λ s. refl) (λ n. refl) push

-- A frame with a reader that comes while it is persisted, one that is cancelled, and the last one.
abbrev watched : List (Move ℕ)
watched =
    emit_begins 5
    ∷ reader_comes
    ∷ emit_ends
    ∷ emit_begins 6
    ∷ emit_cancelled
    ∷ reader_comes
    ∷ emit_begins 7
    ∷ emit_ends
    ∷ []

watched_frames : ended none watched ≡ 5 ∷ 7 ∷ []
watched_frames = refl

close-run_moves-All-IsComplete_example :
    let t = close (run_moves watched fresh).turn in
    All (IsComplete (ended none watched)) t.subscribers
    × (t.frames ≡ ended none watched)
    × (t.persisted ≡ numbered 0 (begun none watched))
close-run_moves-All-IsComplete_example = close-run_moves-All-IsComplete watched

abbrev chat_world : ChatWorld
chat_world = record {
  refusal = none;
  has_context = true;
  chunks = codes "x" ∷ [];
  chat_end = replied (some (codes "hello"));
}

chat-IsChatOrderly_example : IsChatOrderly (chat (codes "hi") chat_world)
chat-IsChatOrderly_example = chat-IsChatOrderly (codes "hi") chat_world

abbrev python : Python
python = record { str_of = text_only; dumps = λ v. []; loads = λ t. none; int_of = int_only }

abbrev task_event : Text → Text × Value
task_event type = (
  codes "custom",
  obj (field (codes "type") (str type) (field (codes "task_id") (str (codes "t")) end)),
)

-- A task that starts, takes two steps, and ends.
abbrev task_events : List (Text × Value)
task_events =
    task_event (codes "task_started")
    ∷ task_event (codes "task_running")
    ∷ task_event (codes "task_running")
    ∷ task_event (codes "task_completed")
    ∷ []

abbrev task_frames : Collector × List ActivityFrame
task_frames = or_else (frames_all python Collector.init task_events) (Collector.init, [])

task_events_lem : frames_all python Collector.init task_events ≡ some task_frames
unfolding frames_all frames custom on_task on_started on_running step_frames terminal_of on_terminal
    get put get_or_null field_get is_str truthy codes list_beq option_beq Collector.init
task_events_lem = refl

frames_all-times_shown_example :
    times_shown (codes "working") (codes "t") task_frames.1
    ≤ times_shown (codes "queued") (codes "t") task_frames.1
frames_all-times_shown_example =
    frames_all-times_shown python (codes "t") task_events task_frames task_events_lem

-- A shell whose commands end with the code one.
abbrev shell : Shell
shell = record { quote = λ t. t; int_of = λ t. some (pos 1) }

parse_terminal_output-append_example :
    parse_terminal_output shell
      (codes "two\nlines" ++ (separator ++ (show 1 ++ (32 ∷ codes "/repo"))))
    ≡ (codes "two\nlines", some (pos 1), given_text (codes "/repo"))
unfolding codes
parse_terminal_output-append_example =
    parse_terminal_output-append shell (codes "two\nlines") (codes "/repo") 1 refl refl
