-- ===== src/Subagents/TokenCollector/Tests.antt =====
-- Two responses of one run, one of another, and one that reports no tokens.
use git_agent.Base.{
  Text, codes, Option, none, some, List, [], ◌∷◌, ◌≡◌, refl, ℤ, pos, length, list_beq,
}
use git_agent.Value.{Value, Fields, str, int, obj, end, field, field_get, truthy}
use git_agent.Security.Finding.{Host, first_truthy}
use git_agent.Subagents.TokenCollector
use git_agent.Subagents.TokenCollector.{
  LlmResponse, SubagentTokenCollector, TotalUsage, new_collector, on_llm_end, cumulative_usage,
}
use git_agent.Subagents.TokenCollector.Counted.{
  on_llm_ends, IsCounted, UsageFits, on_llm_ends-UsageFits,
}

abbrev text_only : Value → Text
text_only (str s) = s
text_only _ = []

abbrev int_only : Value → Option ℤ
int_only (int n) = some n
int_only _ = none

abbrev host : Host
host = record { lower = λ s. s; repr = λ s. s; str_of = text_only; int_of = int_only }

abbrev tokens : ℤ → ℤ → Fields
tokens input output =
    field (codes "input_tokens") (int input) (field (codes "output_tokens") (int output) end)

abbrev old_style : LlmResponse
old_style = record {
  llm_output = field (codes "token_usage") (obj (tokens (pos 10) (pos 2))) end;
  generations = [];
}

abbrev new_style : LlmResponse
new_style = record {
  llm_output = end;
  generations = (none ∷ some (tokens (pos 5) (pos 1)) ∷ []) ∷ [];
}

abbrev responses : List (Text × LlmResponse)
responses =
    (codes "a", old_style)
    ∷ (codes "a", new_style)
    ∷ (codes "b", new_style)
    ∷ (codes "c", record { llm_output = end; generations = [] })
    ∷ []

responses_usage :
    cumulative_usage (on_llm_ends host responses (new_collector (codes "subagent:recon")))
    ≡ some (record { input_tokens = pos 15; output_tokens = pos 3; total_tokens = pos 18 })
unfolding on_llm_ends on_llm_end new_collector cumulative_usage TokenCollector.records_usage
    TokenCollector.add_usage TokenCollector.usage_record TokenCollector.dict_or_empty
    TokenCollector.usage_or TokenCollector.generations_usage TokenCollector.first_usage
    TokenCollector.tokens_arg TokenCollector.total_or_sum TokenCollector.is_positive first_truthy
    field_get truthy codes list_beq
responses_usage = refl

on_llm_ends-UsageFits_example :
    let c = on_llm_ends host responses (new_collector (codes "subagent:recon")) in
    IsCounted c × UsageFits (length c.counted_run_ids) (cumulative_usage c)
on_llm_ends-UsageFits_example = on_llm_ends-UsageFits host (codes "subagent:recon") responses
