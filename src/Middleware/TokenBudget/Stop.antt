-- ===== src/Middleware/TokenBudget/Stop.antt =====
-- core/middleware/token_budget.py: the hard stop.
use git_agent.Base.{
  Text, some, List, [], ◌≡◌, ◌∙◌, arith, if◌then◌else◌, nil_of_is_nil, filter_by_none, leb, is_nil,
  Bool-cases, inl, inr, nat_eq, list_eq, option_eq,
}
use git_agent.Message.{Message, AiMessage, ToolCall, last_ai}
use git_agent.Middleware.Clone.{kept_calls, clone_ai_message_with_tool_calls, strip_all_tool_calls}
use git_agent.Middleware.TokenBudget.{
  Budget, observe_all, after_model, decide, warn, Outcome, returns,
}

-- A hard stop leaves no call.
pub tool_calls-strip : (m : AiMessage) (note : Text) → (strip_all_tool_calls m note).tool_calls ≡ []
unfolding strip_all_tool_calls clone_ai_message_with_tool_calls kept_calls
tool_calls-strip m note = filter_by_none m.tool_calls

-- The calls of the last message once the outcome is applied.
abbrev pub surviving_calls : AiMessage → Outcome → List ToolCall
surviving_calls last (returns (some m)) = m.tool_calls
surviving_calls last _ = last.tool_calls

warn-surviving : (s : Budget) (last : AiMessage) → surviving_calls last (warn s).1 ≡ last.tool_calls
unfolding warn
warn-surviving s last = ground arith

total-warn : (s : Budget) → ((warn s).0.total ≡ s.total) × ((warn s).0.budget ≡ s.budget)
unfolding warn
total-warn s = ground arith

decide-surviving :
    (s : Budget) (last : AiMessage)
    → surviving_calls last (decide s last).1
      ≡ (if leb s.budget s.total then [] else last.tool_calls)
unfolding decide
decide-surviving s last = elim (Bool-cases (leb s.budget s.total)) [
  | inl over ↦ elim (Bool-cases (is_nil last.tool_calls)) [
    | inl quiet ↦ rw (over, quiet) (warn-surviving s last ∙ nil_of_is_nil last.tool_calls quiet)
    | inr busy ↦ rw (over, busy) (tool_calls-strip last _)
  ]
  | inr under ↦ rw under (warn-surviving s last)
]

total-decide :
    (s : Budget) (last : AiMessage)
    → ((decide s last).0.total ≡ s.total) × ((decide s last).0.budget ≡ s.budget)
unfolding decide
total-decide s last = ground (arith, total-warn s)

-- With an AI message last, `after_model` leaves it no tool call once the total that it has just
-- brought up to date reaches the budget, and all its calls as long as it does not.
pub after_model-surviving :
    (s : Budget) (messages : List Message) (last : AiMessage)
    → last_ai messages ≡ some last
    → surviving_calls last (after_model s messages).1 ≡ (
        if leb (after_model s messages).0.budget (after_model s messages).0.total
        then []
        else last.tool_calls)
unfolding after_model
after_model-surviving s messages last e =
    let t : Budget = observe_all s messages in
    rw (e, after_model)
      (rw ((total-decide t last).0, (total-decide t last).1) (decide-surviving t last))
