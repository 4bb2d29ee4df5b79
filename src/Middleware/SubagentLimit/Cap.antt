-- ===== src/Middleware/SubagentLimit/Cap.antt =====
-- The delegation limit of one model turn: what `after_model` lets through.
use git_agent.Base.{
  some, List, ◌≡◌, sym, ap, arith, or_else, length, length-zero_of_is_nil, length-take, Distinct,
  nat_eq, list_eq, option_eq, ℕ, ◌+◌, ◌≤◌, Bool-cases, inl, inr, is_nil, leb, leb→le,
}
use git_agent.Message.{Message, AiMessage, ToolCall, last_ai}
use git_agent.Middleware.Clone.{clone_ai_message_with_tool_calls}
use git_agent.Middleware.SubagentLimit.{
  Limits, task_calls, call_ids, limit_calls, after_model, allowed, prior_delegations,
}
use git_agent.Middleware.SubagentLimit.Kept.{
  keep_tasks, keep_tasks_all, task_calls-keep_tasks, kept_calls-keep_tasks,
}

-- The message that stands last after `limit_calls`.
limit_calls-keep_tasks :
    (n : ℕ) (last : AiMessage)
    → Distinct (call_ids last.tool_calls)
    → (or_else (limit_calls n last) last).tool_calls ≡ keep_tasks n last.tool_calls
unfolding limit_calls
limit_calls-keep_tasks n last d = elim (Bool-cases (is_nil (task_calls last.tool_calls))) [
  | inl none_asked ↦ rw none_asked (
      sym (
        keep_tasks_all n last.tool_calls
          (omega (arith, length-zero_of_is_nil (task_calls last.tool_calls) none_asked))))
  | inr asked ↦ elim (Bool-cases (leb (length (task_calls last.tool_calls)) n)) [
    | inl fits ↦ rw (asked, fits) (sym (keep_tasks_all n last.tool_calls (leb→le _ n fits)))
    | inr over ↦
        rw (asked, over) (unfold clone_ai_message_with_tool_calls in kept_calls-keep_tasks n last d)
  ]
]

-- If the conversation ends with an AI message whose calls have distinct ids, the calls of the last
-- message after `after_model`, replaced or not, are exactly the first `allowed` delegations of that
-- message and all its other calls, in order.
pub after_model-keep_tasks :
    (limits : Limits) (messages : List Message) (last : AiMessage)
    → last_ai messages ≡ some last
    → Distinct (call_ids last.tool_calls)
    → (or_else (after_model limits messages) last).tool_calls
      ≡ keep_tasks (allowed limits messages) last.tool_calls
unfolding after_model
after_model-keep_tasks limits messages last e d =
    rw (e, after_model) (limit_calls-keep_tasks (allowed limits messages) last d)

length-task_calls-le : (n : ℕ) (cs : List ToolCall) → length (task_calls (keep_tasks n cs)) ≤ n
length-task_calls-le n cs =
    omega (arith, ap length (task_calls-keep_tasks n cs), length-take n (task_calls cs))

-- Under the same conditions the turn delegates at most `max_concurrent` times, and a run that has
-- not spent its total stays within `max_total_per_run`, this turn's delegations included.
pub after_model_within_limits :
    (limits : Limits) (messages : List Message) (last : AiMessage)
    → last_ai messages ≡ some last
    → Distinct (call_ids last.tool_calls)
    → prior_delegations messages ≤ limits.max_total_per_run
    → let granted = length (task_calls (or_else (after_model limits messages) last).tool_calls) in
      (granted ≤ limits.max_concurrent)
      × (prior_delegations messages + granted ≤ limits.max_total_per_run)
unfolding allowed
after_model_within_limits limits messages last e d spent =
    rw (after_model-keep_tasks limits messages last e d)
      (omega (arith, length-task_calls-le (allowed limits messages) last.tool_calls))
