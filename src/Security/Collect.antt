-- ===== src/Security/Collect.antt =====
-- core/tools/security/findings.py: the findings of a run, from the tool calls in its messages.
pub mod Result
pub mod Accepted
use git_agent.Base.{
  Text, codes, Bool, true, false, Option, none, some, List, [], ◌∷◌, ◌>>=◌, is_nil, map,
  if◌then◌else◌, leb, Dict, put, sorted, ℕ, ◌+◌, nat_eq, list_eq, option_eq, pair_eq, ◌==◌, HasEq,
}
use git_agent.Message.{Message, ToolCall, ai, tool, human, system}
use git_agent.Security.Finding.{Finding, Host, severities, finding_from_args}

unfoldable pub finding_tool : Text
finding_tool = codes "report_finding"

abbrev pub Key : Type 0
Key = Text × Option Text

abbrev pub key : Finding → Key
key f = (f.title, f.file)

-- `_SEVERITY_ORDER.get(s, 99)`
unfoldable pub rank_from : ℕ → List Text → Text → ℕ
rank_from n [] s = 99
rank_from n (t ∷ ts) s = let rest = rank_from (n + 1) ts s in if t == s then n else rest

unfoldable pub rank : Finding → ℕ
rank f = rank_from 0 severities f.severity

abbrev pub Found : Type 0
Found = Dict Key Finding

unfoldable pub keep : Found → Finding → Found
keep d f = if is_nil f.title then d else put (key f) f d

unfoldable pub add_call : Host → Found → ToolCall → Option Found
add_call h d c =
    if c.name == finding_tool then (finding_from_args h c.args >>= λ f. some (keep d f)) else some d

unfoldable pub add_calls : Host → Found → List ToolCall → Option Found
add_calls h d [] = some d
add_calls h d (c ∷ cs) = add_call h d c >>= λ e. add_calls h e cs

unfoldable pub add_message : Host → Found → Message → Option Found
add_message h d (ai m) = add_calls h d m.tool_calls
add_message h d (tool m) = some d
add_message h d (human m) = some d
add_message h d (system m) = some d

unfoldable pub add_messages : Host → Found → List Message → Option Found
add_messages h d [] = some d
add_messages h d (m ∷ ms) = add_message h d m >>= λ e. add_messages h e ms

abbrev pub at_least_as_severe : Finding → Finding → Bool
at_least_as_severe f g = leb (rank f) (rank g)

-- `none` is an exception in the arguments of a call.
unfoldable pub collect_findings : Host → List Message → Option (List Finding)
collect_findings h messages =
    add_messages h [] messages >>= λ d. some (sorted at_least_as_severe (map (λ e. e.1) d))
