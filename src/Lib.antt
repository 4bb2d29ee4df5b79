-- ===== src/Lib.antt =====
-- A verification library for the agent of git-agent: the Python program under agent/ that audits
-- repositories. A runner takes events from a queue, raises the instance that an event belongs to in
-- one of its slots, and lets the lead, a LangGraph agent, run a turn over the instance's thread. The
-- lead is wrapped in middleware that limits what it may do, and delegates work to subagents.
--
-- The parts, and how they interact:
-- - Base: what all other files share. Base/Tests has Boolean tests on numbers, Base/Lists the lists
--   measured by native numbers, Base/Equality the class HasEq of Python's ==, sets and membership,
--   Base/Maps dictionaries, Base/Strings text as code points, Base/Sorting a stable sort, Base/Int
--   signed integers.
-- - Value and Value/Entries: JSON values and dictionaries with string keys, in insertion order.
-- - Message: the fields of LangChain's messages that the program reads or writes.
-- - Middleware/Clone (agent/core/middleware/_common.py): clone_ai_message_with_tool_calls and the
--   hidden messages, used by the two stops below. Clone/Hygiene: what a clone keeps.
-- - Middleware/SubagentLimit (subagent_limit.py): after_model of the limit on delegations. Its child
--   modules say which calls survive (Sublist, Kept) and how many (Cap).
-- - Middleware/TokenBudget (token_budget.py): observe, decide, after_model and the delivery of
--   warnings. Accounting and Once are about the sum, Stop about the hard stop, Runs about sequences
--   of hooks.
-- - Middleware/LoopDetection (loop_detection.py): the window of call hashes and tool names. Repeat:
--   what happens when one call set is repeated.
-- - Middleware/TerminalResponse (terminal_response.py): the retry of an empty answer. Retry: runs.
-- - Middleware/ToolReceipts (tool_receipts.py): the stamps of tool results and the ledger in the
--   calls of the model. Stamps and Turns are about the two; Turns also uses Subagents/Ledger.
-- - Middleware/Sanitization (tool_result_sanitization.py): framework tags in the output of untrusted
--   tools. Clean: what is left of them.
-- - Middleware/ToolErrors (tool_error_handling.py, and the order of the middleware in
--   agent/core/subagents/executor.py): exceptions of tools. Chain: the receipt of a failed call.
-- - Runner/Content (agent/core/runner/activity.py, message_text) and Runner/History (history.py):
--   the repair of a thread before a turn; History/Repair is about the repaired messages, Added about
--   those that are new, and Update about the change of the thread.
-- - Runner/Slots (service.py, _raise and stop_instance): the state is the permits, the raised
--   instances and the tasks under way, a step is what one task does between two awaits. Slots/Balance
--   is the invariant over all interleavings.
-- - Runner/Event and Runner/Wire (events.py): the event, has_code_target, to_wire, parse_event.
-- - Runner/Turn (service.py, _handle_event and _hand_off): all branches as a list of effects and an
--   outcome, the answers of the store, the hub and the executor in a record World. Turn/Frames is
--   about one handling, Turn/Journal about many.
-- - Runner/Chat (service.py, chat): the same of a chat message; Chat/Frames is about its effects.
-- - Runner/WorkLog, Runner/Collector and Runner/Stream (activity.py, ActivityCollector): the previews of
--   the work log, the collector and its events, and the chunks of a stream. Stream/Shown, Stream/Events
--   and Stream/Tasks are about the status of the tasks in the frames.
-- - Runner/Terminal and Runner/Prompt (agent/core/runner/executor.py): the console commands, and the task
--   and the range of an event. Terminal/RoundTrip: what is read back of a command's output.
-- - Runner/Feed (activity.py, ActivityTurn): the numbered frames of a turn and the readers of stream;
--   Feed/Readers and Feed/Cancelled are about what they get, the latter when an emission is cancelled.
-- - Runner/Follow (ActivityFeed, and activity of service.py): the live turn of an instance or the
--   table of Hub. Follow/Agrees: that a reader gets the same frames of either.
-- - Subagents/Lifecycle (agent/core/subagents/contract.py, SubagentResult): the result holder;
--   Lifecycle/FirstWriter is about sequences of writers.
-- - Subagents/Contract (contract.py, make_subagent_additional_kwargs and
--   read_subagent_result_metadata): the metadata of a delegation, which the limit on delegations
--   counts. Contract/Truncate and Contract/RoundTrip are its lemmas.
-- - Subagents/Capacity (capacity.py, slot): the admission as steps. Capacity/Bounds: its invariant.
-- - Subagents/Citations (receipts.py): receipts, citations and the verdict; Numbering, Parsing and
--   Verdict are about the three.
-- - Subagents/Ledger (receipts.py): the ledger that is rendered for the model and read back from a
--   turn. Budget is about its length, Snapshot about what it shows, Digits and Citing about reading.
-- - Subagents/Report (receipts.py): the texts on reports and the acceptance criteria. Criteria: which
--   criteria a task names.
-- - Subagents/Registry (registry.py): the types of subagents. Registry/Resolve: what a name means.
-- - Subagents/Executor (executor.py): the run of a subagent, and FindingFields the findings that it
--   puts into its result. Executor/Outcome: what it returns.
-- - Subagents/TokenCollector (executor.py): the usage that the callbacks collect. Counted: what of.
-- - Subagents/Delegation and Subagents/TaskTool (agent/core/tools/delegation/task.py, and the message
--   text of contract.py): the tool task. TaskTool/Reported is about its events and its answer.
-- - Subagents/Steps (steps.py): build_subagent_step and capture_new_step_messages over the lists that
--   the captures share. Steps/Capture is about what they keep, and Steps/Once about a new look.
-- - Security/Finding and Security/Collect (agent/core/tools/security/findings.py): validate_finding,
--   finding_from_args and collect_findings. Collect/Result is about what is collected, and
--   Collect/Accepted about what the tool has accepted.
-- - Security/Blame (agent/core/tools/security/blame.py): the reading of the output of git blame.
--   Blame/Chosen and Blame/Most are about the commit that is chosen. Blame/Resolver is the class
--   BlameResolver, and Resolver/Cache is about its caches.
-- - Security/Report (report.py) and Report/Render: the structured report and its text. Report/Counts
--   is about its numbers and Report/Cells about its table.
-- - Security/HubTools (hub.py and report_finding.py): report_finding and write_report of a turn.
--   HubTools/Calls runs the calls of a turn in any order; Calls/Rows and Calls/Saved are about the
--   rows of the findings and the reports that they leave.
-- - ToolSearch and ToolSearch/Deferred (agent/core/tools/mcp/tool_search.py and metadata.py): the
--   deferred tools. Found is about a search by key words, and Deferred/Whole about the set-up.
-- - Hub (agent/infra/db/hub_store.py): the tables of the hub that the runners share. Hub/Instances is
--   about who holds an instance (Exclusive), Hub/Journal about the events that are settled (Effects,
--   and Once over the handler of Runner/Turn), Hub/Activity about the frames of turns that are
--   over (Replay, over Runner/Feed), Hub/Findings about the rows of findings and reports.
-- - Memory, Memory/Config, Memory/Prompts and Memory/Presets (agent/core/memory/): the policies of
--   compaction and which one a model gets. Memory/Default is about a model for which none is named.
-- - Errors (agent/pkg/errors.py): the description of an exception. Chain: that it ends.
-- Each folder has a module Tests with concrete runs.
--
-- Conventions. Numbers are native; a Python int that may be negative is Z of Base/Int; a count that
-- the code compares with a fraction is compared by multiplication, which is exact. Text is a list of
-- code points. A set is a list without duplicates where its order does not matter. None is `none`.
-- An exception is a constructor of the answer or `none`, said at each definition. There is
-- fuel in `show`, which writes n with n + 1 steps, more than n has digits, and in Errors, where a
-- theorem says how much is enough; every other loop is structural.
--
-- What is a parameter: SHA-256, Python's str and int of arbitrary values, the regular expressions,
-- json.dumps, str.lower, repr and shlex.quote, how git and the console answer,
-- the text of a LangChain message, and LangGraph's add_messages. Where a theorem relies on their
-- behaviour, it names it as a hypothesis. The store is a parameter of Runner/Turn, and the tables of
-- Hub are what stands there; a statement of SQL is taken to run alone.
--
-- What is left out, and why: the other adapters under agent/infra, the wiring and the settings are
-- I/O; collect_findings_from_events and summarize_findings are called by tests only;
-- tracing and logging only observe; the graph itself, its checkpoints and the model are libraries;
-- the backend, the tunnel and the frontend are other programs. Time is left out but as steps that
-- may come at any moment: a time-out, a cancellation, an answer. Exceptions of the store and the hub
-- outside a turn are left out of the event handling, and part of the slots.
pub mod Base
pub mod Errors
pub mod Hub
pub mod Memory
pub mod ToolSearch
pub mod Value
pub mod Message
pub mod Middleware
pub mod Runner
pub mod Subagents
pub mod Security
