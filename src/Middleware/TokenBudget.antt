-- ===== src/Middleware/TokenBudget.antt =====
-- core/middleware/token_budget.py: the token budget of a run, over the usage that messages carry.
-- The fraction at which the warning is due is a quotient of integers, and the percentage of the
-- warning is rounded exactly, half to even.
pub mod Accounting
pub mod Once
pub mod Stop
pub mod Runs
use git_agent.Base.{
  Text, codes, show, Bool, true, false, Option, none, some, List, [], ◌∷◌, ◌++◌, ◌&&◌, not, leb,
  ltb, length, is_nil, or_else, Dict, get, put, HasEq, nat_eq, list_eq, if◌then◌else◌, ℕ, zero, suc,
  ◌+◌, ◌-◌, ◌*◌, ◌/◌, ◌%◌, max, ℤ, pos, negsuc,
}
use git_agent.Message.{Message, AiMessage, Usage, ai, last_ai}
use git_agent.Middleware.Clone.{strip_all_tool_calls, append_hidden_human}

unfoldable pub stop_reason_token : Text
stop_reason_token = codes "token_capped"

unfoldable pub cap_stop_note : Text
cap_stop_note =
    codes
      "\n\n[TOKEN BUDGET REACHED] The token budget for this run is exhausted; further tool calls were removed. Provide the final answer from what you already have."

pad3 : ℕ → Text
pad3 n = (48 + n / 100) ∷ (48 + n / 10 % 10) ∷ (48 + n % 10) ∷ []

-- `{n:,}`
grouped : ℕ → ℕ → Text
unfolding pad3
grouped zero n = []
grouped (suc f) n =
    let front = grouped f (n / 1000) in
    if ltb n 1000 then show n else front ++ codes "," ++ pad3 (n % 1000)

-- `{a / b:.0%}`, half to even
percent : ℕ → ℕ → ℕ
percent a b =
    let q = 100 * a / b in
    let r = 2 * (100 * a % b) in if ltb r b then q else if ltb b r then q + 1 else q + q % 2

unfoldable pub budget_warning : ℕ → ℕ → Text
unfolding grouped percent
budget_warning used budget =
    codes "[budget warning] You have used "
    ++ grouped (suc used) used
    ++ codes " of "
    ++ grouped (suc budget) budget
    ++ codes " tokens ("
    ++ show (percent used budget)
    ++ codes "%). Wrap up: prioritize synthesizing the final answer over further exploration."

pub record Budget : Type 0 where
  pub budget : ℕ
  pub warn_at : ℕ
  pub seen : Dict Text ℕ
  pub total : ℕ
  pub warned : Bool
  pub pending_warnings : List Text
  pub stop_reason : Option Text

-- `TokenBudgetMiddleware(max_total_tokens=…, warn_fraction=num/den)`
unfoldable pub init : ℕ → ℕ → ℕ → Budget
init max_total_tokens num den = record {
  budget = max_total_tokens;
  warn_at = max_total_tokens * num / den;
  seen = [];
  total = 0;
  warned = false;
  pending_warnings = [];
  stop_reason = none;
}

unfoldable pub consume_stop_reason : Budget → Budget × Option Text
consume_stop_reason s = (record s { stop_reason = none }, s.stop_reason)

-- The body of the loop for a message with an id and `current` tokens.
unfoldable pub count_usage : Budget → Text → ℕ → Budget
count_usage s id current =
    let old : ℕ = or_else (get id s.seen) 0 in
    record s { seen = put id (max current old) s.seen; total = s.total + (current - old) }

-- Nothing is counted for a message without an id, or whose usage is missing or not positive.
unfoldable pub observe_total : Budget → Text → ℤ → Budget
observe_total s id (pos zero) = s
observe_total s id (pos (suc n)) = count_usage s id (suc n)
observe_total s id (negsuc n) = s

unfoldable pub observe_usage : Budget → Option Text → Option Usage → Budget
observe_usage s none usage = s
observe_usage s (some id) none = s
observe_usage s (some id) (some usage) = observe_total s id usage.total_tokens

unfoldable pub observe : Budget → Message → Budget
observe s (ai m) = observe_usage s m.id m.usage_metadata
observe s _ = s

unfoldable pub observe_all : Budget → List Message → Budget
observe_all s [] = s
observe_all s (m ∷ ms) = observe_all (observe s m) ms

-- `total / budget` in the warning's text raises on a budget of 0.
pub data Outcome : Type 0 where
  returns : Option AiMessage → Outcome
  zero_division_error : Outcome

-- Past the hard stop: queue the warning once.
unfoldable pub warn : Budget → Budget × Outcome
warn s =
    if leb s.warn_at s.total && not s.warned
    then (if leb s.budget 0 then (record s { warned = true }, zero_division_error) else (
      record s {
        warned = true;
        pending_warnings = s.pending_warnings ++ budget_warning s.total s.budget ∷ [];
      },
      returns none,
    ))
    else (s, returns none)

unfoldable pub decide : Budget → AiMessage → Budget × Outcome
decide s last =
    if leb s.budget s.total && not (is_nil last.tool_calls)
    then (
      record s { stop_reason = some stop_reason_token },
      returns (some (strip_all_tool_calls last cap_stop_note)),
    )
    else warn s

unfoldable pub after_model : Budget → List Message → Budget × Outcome
after_model s messages =
    let observed : Budget = observe_all s messages in
    elim (last_ai messages) [ none ↦ (observed, returns none) | some last ↦ decide observed last ]

unfoldable pub drain : Budget → List Message → Budget × List Message
drain s request =
    if is_nil s.pending_warnings
    then (s, request)
    else (record s { pending_warnings = [] }, append_hidden_human request s.pending_warnings)

unfoldable pub wrap_model_call {ℓ} :
    {R : Type ℓ} → (List Message → R) → Budget → List Message → Budget × R
wrap_model_call handler s request = let (s', request') = drain s request in (s', handler request')
