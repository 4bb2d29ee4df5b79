-- ===== src/Subagents/TokenCollector.antt =====
-- SubagentTokenCollector of core/subagents/executor.py: the usage of the calls of the model that a
-- subagent makes.
pub mod Counted
mod Tests
use git_agent.Base.{
  Text, codes, Bool, true, false, Option, none, some, List, [], ◌∷◌, ◌++◌, ◌>>=◌, contains,
  if◌then◌else◌, ℤ, pos, negsuc, ◌+ℤ◌, zero, suc, nat_eq, list_eq,
}
use git_agent.Value.{Value, Fields, int, obj, end, field, field_get, truthy}
use git_agent.Security.Finding.{Host, first_truthy}

-- What the callback reads of a response: `llm_output or {}`, and for each generation the
-- `usage_metadata` of its message.
pub record LlmResponse : Type 0 where
  pub llm_output : Fields
  pub generations : List (List (Option Fields))

pub record UsageRecord : Type 0 where
  pub caller : Text
  pub model_name : Option Value
  pub input_tokens : ℤ
  pub output_tokens : ℤ
  pub total_tokens : ℤ

pub record SubagentTokenCollector : Type 0 where
  pub caller : Text
  pub records : List UsageRecord
  pub counted_run_ids : List Text

unfoldable pub new_collector : Text → SubagentTokenCollector
new_collector caller = record { caller = caller; records = []; counted_run_ids = [] }

-- `… .get("token_usage") or {}`; `none` is a value that has no `get`.
unfoldable pub dict_or_empty : Option Value → Option Fields
dict_or_empty none = some end
dict_or_empty (some (obj d)) = some d
dict_or_empty (some v) = if truthy v then none else some end

-- The inner loop, which a usage that is not empty ends.
unfoldable pub first_usage : Fields → List (Option Fields) → Fields
first_usage usage [] = usage
first_usage usage (some (field k v d) ∷ gens) = field k v d
first_usage usage (some end ∷ gens) = first_usage usage gens
first_usage usage (none ∷ gens) = first_usage usage gens

unfoldable pub generations_usage : Fields → List (List (Option Fields)) → Fields
generations_usage usage [] = usage
generations_usage usage (gens ∷ rest) = generations_usage (first_usage usage gens) rest

unfoldable pub usage_or : Fields → List (List (Option Fields)) → Fields
usage_or end generations = generations_usage end generations
usage_or (field k v d) generations = field k v d

-- `int(usage.get(a) or usage.get(b) or 0)`; `none` is an exception of `int`.
unfoldable pub tokens_arg : Host → Text → Text → Fields → Option ℤ
tokens_arg h a b usage =
    h.int_of (first_truthy (field_get a usage) (first_truthy (field_get b usage) (int (pos 0))))

-- `int(usage.get("total_tokens") or 0) or input_tokens + output_tokens`
unfoldable pub total_or_sum : ℤ → ℤ → ℤ → ℤ
total_or_sum (pos zero) input output = input +ℤ output
total_or_sum n input output = n

unfoldable pub is_positive : ℤ → Bool
is_positive (pos (suc n)) = true
is_positive (pos zero) = false
is_positive (negsuc n) = false

-- The record of a response; `none` is an exception, which the callback only logs.
unfoldable pub usage_record : Host → Text → LlmResponse → Option UsageRecord
usage_record h caller r = do
  token_usage ← dict_or_empty (field_get (codes "token_usage") r.llm_output)
  let usage = usage_or token_usage r.generations
  input ← tokens_arg h (codes "input_tokens") (codes "prompt_tokens") usage
  output ← tokens_arg h (codes "output_tokens") (codes "completion_tokens") usage
  total ← h.int_of (first_truthy (field_get (codes "total_tokens") usage) (int (pos 0)))
  some (record {
    caller = caller;
    model_name = field_get (codes "model_name") r.llm_output;
    input_tokens = input;
    output_tokens = output;
    total_tokens = total_or_sum total input output;
  })

unfoldable pub add_usage :
    Text → Option UsageRecord → SubagentTokenCollector → SubagentTokenCollector
add_usage key none c = c
add_usage key (some u) c =
    if is_positive u.total_tokens
    then record c { records = c.records ++ u ∷ []; counted_run_ids = key ∷ c.counted_run_ids }
    else c

unfoldable pub on_llm_end :
    Host → Text → LlmResponse → SubagentTokenCollector → SubagentTokenCollector
on_llm_end h key r c =
    if contains key c.counted_run_ids then c else add_usage key (usage_record h c.caller r) c

abbrev pub sum_tokens : (UsageRecord → ℤ) → List UsageRecord → ℤ
sum_tokens f [] = pos 0
sum_tokens f (u ∷ us) = f u +ℤ sum_tokens f us

pub record TotalUsage : Type 0 where
  pub input_tokens : ℤ
  pub output_tokens : ℤ
  pub total_tokens : ℤ

unfoldable pub records_usage : List UsageRecord → Option TotalUsage
records_usage [] = none
records_usage (u ∷ us) = some (record {
  input_tokens = sum_tokens (λ r. r.input_tokens) (u ∷ us);
  output_tokens = sum_tokens (λ r. r.output_tokens) (u ∷ us);
  total_tokens = sum_tokens (λ r. r.total_tokens) (u ∷ us);
})

unfoldable pub cumulative_usage : SubagentTokenCollector → Option TotalUsage
cumulative_usage c = records_usage c.records
