-- ===== src/Middleware/TokenBudget/Runs.antt =====
-- core/middleware/token_budget.py: runs of the middleware, its accounts and its warning.
use git_agent.Base.{
  Option-cases, none, List, [], ◌∷◌, ◌≡◌, refl, ◌∙◌, arith, if◌then◌else◌, ℕ, ◌+◌, ◌≤◌, length,
  length-zero_of_is_nil, length-append, inl, inr, nat_eq, list_eq, option_eq,
}
use git_agent.Message.{Message, AiMessage, last_ai}
use git_agent.Middleware.TokenBudget.{
  budget_warning, Budget, init, observe, observe_usage, observe_total, observe_all, count_usage,
  after_model, decide, warn, drain, consume_stop_reason,
}
use git_agent.Middleware.TokenBudget.Accounting.{Balanced, observe_all-Balanced}

-- What drives the middleware: the hooks of the agent loop and the reader of its stop reason.
pub data Action : Type 0 where
  model_returned : List Message → Action
  model_called : List Message → Action
  reason_consumed : Action

unfoldable pub step : Budget → Action → Budget
step s (model_returned messages) = (after_model s messages).0
step s (model_called request) = (drain s request).0
step s reason_consumed = (consume_stop_reason s).0

unfoldable pub run : Budget → List Action → Budget
run s [] = s
run s (a ∷ rest) = run (step s a) rest

-- The warnings that the calls of the model were given, over a run.
unfoldable pub warnings_sent : Budget → List Action → ℕ
warnings_sent s [] = 0
warnings_sent s (model_called request ∷ rest) =
    length s.pending_warnings + warnings_sent (step s (model_called request)) rest
warnings_sent s (a ∷ rest) = warnings_sent (step s a) rest

warn-Balanced : (s : Budget) → Balanced s → Balanced (warn s).0
unfolding warn
warn-Balanced s h = ground arith

decide-Balanced : (s : Budget) (last : AiMessage) → Balanced s → Balanced (decide s last).0
unfolding decide
decide-Balanced s last h = ground (arith, warn-Balanced s h)

after_model-Balanced : (s : Budget) (ms : List Message) → Balanced s → Balanced (after_model s ms).0
unfolding after_model
after_model-Balanced s ms h = elim (Option-cases (last_ai ms)) [
  | inl e ↦ rw (e, after_model) (observe_all-Balanced s ms h)
  | inr (last, e) ↦
      rw (e, after_model) (decide-Balanced (observe_all s ms) last (observe_all-Balanced s ms h))
]

step-Balanced : (s : Budget) (a : Action) → Balanced s → Balanced (step s a)
unfolding step
step-Balanced s (model_returned ms) h = after_model-Balanced s ms h
step-Balanced s (model_called request) h = unfold drain in ground arith
step-Balanced s reason_consumed h = unfold consume_stop_reason in h

run-Balanced : (s : Budget) (actions : List Action) → Balanced s → Balanced (run s actions)
unfolding run
run-Balanced s [] h = h
run-Balanced s (a ∷ rest) h = run-Balanced (step s a) rest (step-Balanced s a h)

-- After any run from a fresh middleware, the total is the sum of its table of seen usage.
pub run-init-Balanced :
    (max_total_tokens num den : ℕ) (actions : List Action)
    → Balanced (run (init max_total_tokens num den) actions)
unfolding init
run-init-Balanced max_total_tokens num den actions =
    run-Balanced (init max_total_tokens num den) actions refl

-- The warnings that may still be sent.
abbrev warnings_left : Budget → ℕ
warnings_left s = length s.pending_warnings + (if s.warned then 0 else 1)

warnings_left-observe_usage :
    (s : Budget) (m : Message)
    → ((observe s m).warned ≡ s.warned) × ((observe s m).pending_warnings ≡ s.pending_warnings)
unfolding observe observe_usage observe_total count_usage
warnings_left-observe_usage s m = ground arith

warnings_left-observe_all :
    (s : Budget) (ms : List Message) → warnings_left (observe_all s ms) ≡ warnings_left s
unfolding observe_all
warnings_left-observe_all s [] = refl
warnings_left-observe_all s (m ∷ ms) =
    let same = warnings_left-observe_usage s m in
    warnings_left-observe_all (observe s m) ms ∙ rw same.0 (rw same.1)

warnings_left-warn : (s : Budget) → warnings_left (warn s).0 ≤ warnings_left s
unfolding warn
warnings_left-warn s =
    ground (arith, length-append s.pending_warnings (budget_warning s.total s.budget ∷ []))

warnings_left-decide :
    (s : Budget) (last : AiMessage) → warnings_left (decide s last).0 ≤ warnings_left s
unfolding decide
warnings_left-decide s last = ground (arith, warnings_left-warn s)

warnings_left-after_model :
    (s : Budget) (ms : List Message) → warnings_left (after_model s ms).0 ≤ warnings_left s
unfolding after_model
warnings_left-after_model s ms = elim (Option-cases (last_ai ms)) [
  | inl e ↦ rw (e, after_model) (omega (arith, warnings_left-observe_all s ms))
  | inr (last, e) ↦
      rw (e, after_model)
        (omega
          (arith, warnings_left-decide (observe_all s ms) last, warnings_left-observe_all s ms))
]

warnings_left-drain :
    (s : Budget) (request : List Message)
    → length s.pending_warnings + warnings_left (drain s request).0 ≤ warnings_left s
unfolding drain
warnings_left-drain s request = ground (arith, length-zero_of_is_nil s.pending_warnings)

warnings_sent-le : (s : Budget) (actions : List Action) → warnings_sent s actions ≤ warnings_left s
unfolding warnings_sent step consume_stop_reason
warnings_sent-le s [] = omega arith
warnings_sent-le s (model_returned ms ∷ rest) =
    omega (arith, warnings_sent-le (after_model s ms).0 rest, warnings_left-after_model s ms)
warnings_sent-le s (model_called request ∷ rest) =
    omega (arith, warnings_sent-le (drain s request).0 rest, warnings_left-drain s request)
warnings_sent-le s (reason_consumed ∷ rest) =
    warnings_sent-le (record s { stop_reason = none }) rest

-- A run of a fresh middleware, whatever the model returns, sends the budget warning at most once.
pub warnings_sent_once :
    (max_total_tokens num den : ℕ) (actions : List Action)
    → warnings_sent (init max_total_tokens num den) actions ≤ 1
warnings_sent_once max_total_tokens num den actions =
    unfold init in warnings_sent-le (init max_total_tokens num den) actions
