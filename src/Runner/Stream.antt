-- ===== src/Runner/Stream.antt =====
-- core/runner/activity.py: the chunks of a turn's stream, one after another.
pub mod Shown
pub mod Events
pub mod Tasks
use git_agent.Base.{
  Text, codes, Bool, true, false, Option, none, some, List, [], ◌∷◌, ◌++◌, ◌>>=◌, ℕ, ◌+◌, ◌&&◌, not,
  if◌then◌else◌, length, is_nil, filter_by, strip, nat_eq, list_eq, ◌==◌, or_else,
}
use git_agent.Value.{
  Value, Values, Fields, null, bool, int, str, arr, obj, other, nil, cons, end, field, field_get,
  truthy,
}
use git_agent.Runner.Content.{message_text, is_str}
use git_agent.Runner.WorkLog.{Python, ActivityFrame, frame_of, str_or, get_or_null, calls_of, work}
use git_agent.Runner.Collector.{Collector, custom}

-- The calls of `report_finding` among the tool calls.
unfoldable pub report_calls : List Fields → ℕ
report_calls cs =
    length (filter_by (λ c. is_str (codes "report_finding") (field_get (codes "name") c)) cs)

abbrev pub with_reply : List Text → Text → List Text
with_reply reply [] = reply
with_reply reply (c ∷ t) = reply ++ ((c ∷ t) ∷ [])

unfoldable pub on_ai : Python → Collector → Fields → Option (Collector × List ActivityFrame)
on_ai p c m = do
  let content = get_or_null (codes "content") m
  calls ← calls_of (get_or_null (codes "tool_calls") m)
  frames ←
      work p none content (get_or_null (codes "tool_calls") m) none
        (get_or_null (codes "usage_metadata") m)
  some (
    record {
      findings = c.findings + report_calls calls;
      reply = with_reply c.reply (strip (message_text p.str_of content));
      tasks = c.tasks;
    },
    frames,
  )

-- The report of a subagent: the answer of the tool `task`.
unfoldable pub report_frames : Python → Value → Value → Option (List ActivityFrame)
report_frames p (str (x ∷ id)) content = some (
    record (frame_of (codes "task_report")) {
      task_id = some (x ∷ id);
      description = some (str (str_or p content []));
    }
    ∷ [])
report_frames p v content = if truthy v then none else some []

unfoldable pub on_tool : Python → Fields → Option (List ActivityFrame)
on_tool p m =
    let name = get_or_null (codes "name") m in
    let content = get_or_null (codes "content") m in
    let report = report_frames p (get_or_null (codes "tool_call_id") m) content in
    let log = work p none null null (some (name, content)) null in
    if is_str (codes "task") (some name) then report else log

unfoldable pub on_message : Python → Collector → Value → Option (Collector × List ActivityFrame)
on_message p c (obj m) =
    let answer = on_ai p c m in
    let result = on_tool p m >>= λ fs. some (c, fs) in
    let type = field_get (codes "type") m in
    if is_str (codes "ai") type
    then answer
    else (if is_str (codes "tool") type then result else some (c, []))
on_message p c _ = some (c, [])

unfoldable pub on_messages : Python → Collector → Values → Option (Collector × List ActivityFrame)
on_messages p c nil = some (c, [])
on_messages p c (cons m ms) = do
  here ← on_message p c m
  rest ← on_messages p here.0 ms
  some (rest.0, here.1 ++ rest.1)

-- `update.get("messages") if isinstance(update, dict) else None`
unfoldable pub messages_of : Value → Value
messages_of (obj d) = get_or_null (codes "messages") d
messages_of _ = null

-- Iterating over anything but a list meets no dictionary, or raises.
unfoldable pub on_iterable : Python → Collector → Value → Option (Collector × List ActivityFrame)
on_iterable p c (arr ms) = on_messages p c ms
on_iterable p c (str s) = some (c, [])
on_iterable p c (obj d) = some (c, [])
on_iterable p c v = if truthy v then none else some (c, [])

unfoldable pub node_frame : Collector → Text → ActivityFrame
node_frame c node = record (frame_of (codes "node")) {
  description = some (str node);
  status = some (codes "done");
  findings_count = some c.findings;
}

unfoldable pub updates : Python → Collector → Fields → Option (Collector × List ActivityFrame)
updates p c end = some (c, [])
updates p c (field node update d) = do
  here ← on_iterable p c (messages_of update)
  rest ← updates p here.0 d
  some (rest.0, here.1 ++ (node_frame here.0 node ∷ rest.1))

-- One chunk of the stream; `none` is an exception.
unfoldable pub frames : Python → Collector → Text × Value → Option (Collector × List ActivityFrame)
frames p c (mode, obj d) =
    let of_custom = custom p c d in
    let of_updates = updates p c d in
    if mode == codes "custom"
    then of_custom
    else (if mode == codes "updates" then of_updates else some (c, []))
frames p c (mode, _) = some (c, [])

-- The chunks of a turn.
unfoldable pub frames_all :
    Python → Collector → List (Text × Value) → Option (Collector × List ActivityFrame)
frames_all p c [] = some (c, [])
frames_all p c (chunk ∷ chunks) = do
  here ← frames p c chunk
  rest ← frames_all p here.0 chunks
  some (rest.0, here.1 ++ rest.1)
