-- ===== src/Memory/Presets.antt =====
-- core/memory/presets.py: the named policies.
use git_agent.Base.{Text, codes, true, false, none, some, List, [], ◌∷◌, Dict}
use git_agent.Memory.Config.{MemoryConfig, memory_config}
use git_agent.Memory.Prompts.{
  context_reset_summary_prompt, delta_summary_prompt, selective_retention_summary_prompt,
}

abbrev pub full_history : MemoryConfig
full_history = record (memory_config (codes "full_history")) {
  summarization = false;
  context_editing = false;
}

abbrev pub exp_fh_raw : MemoryConfig
exp_fh_raw = record (memory_config (codes "exp_fh_raw")) {
  summarization = false;
  context_editing = false;
  experiment_mode = true;
}

abbrev pub exp_fh_cap10k : MemoryConfig
exp_fh_cap10k = record (memory_config (codes "exp_fh_cap10k")) {
  summarization = false;
  context_editing = false;
  tool_output_cap_bytes = some 40000;
  experiment_mode = true;
}

abbrev pub exp_c200_raw : MemoryConfig
exp_c200_raw = record (memory_config (codes "exp_c200_raw")) {
  summarization_trigger_tokens = 200000;
  summarization_keep_tokens = some 50000;
  summarization_trim_tokens = none;
  summarization_input_guard_tokens = some 900000;
  context_editing = false;
  experiment_mode = true;
}

abbrev pub exp_c200_cap10k : MemoryConfig
exp_c200_cap10k = record (memory_config (codes "exp_c200_cap10k")) {
  summarization_trigger_tokens = 200000;
  summarization_keep_tokens = some 50000;
  summarization_trim_tokens = none;
  summarization_input_guard_tokens = some 900000;
  context_editing = false;
  tool_output_cap_bytes = some 40000;
  experiment_mode = true;
}

abbrev pub exp_c200_cap10k_structured : MemoryConfig
exp_c200_cap10k_structured = record (memory_config (codes "exp_c200_cap10k_structured")) {
  summarization_trigger_tokens = 200000;
  summarization_keep_tokens = some 50000;
  summarization_trim_tokens = none;
  summarization_input_guard_tokens = some 900000;
  summarization_strategy = codes "structured_prefix";
  context_editing = false;
  tool_output_cap_bytes = some 40000;
  experiment_mode = true;
}

abbrev pub exp_c400_cap10k : MemoryConfig
exp_c400_cap10k = record (memory_config (codes "exp_c400_cap10k")) {
  summarization_trigger_tokens = 400000;
  summarization_keep_tokens = some 50000;
  summarization_trim_tokens = none;
  summarization_input_guard_tokens = some 900000;
  context_editing = false;
  tool_output_cap_bytes = some 40000;
  experiment_mode = true;
}

abbrev pub exp_c800_cap10k : MemoryConfig
exp_c800_cap10k = record (memory_config (codes "exp_c800_cap10k")) {
  summarization_trigger_tokens = 800000;
  summarization_keep_tokens = some 50000;
  summarization_trim_tokens = none;
  summarization_input_guard_tokens = some 900000;
  context_editing = false;
  tool_output_cap_bytes = some 40000;
  experiment_mode = true;
}

abbrev pub prod : MemoryConfig
prod = memory_config (codes "prod")

abbrev pub prod_v2 : MemoryConfig
prod_v2 = record (memory_config (codes "prod_v2")) {
  summarization_trigger_tokens = 800000;
  summarization_keep_tokens = some 50000;
  summarization_trim_tokens = none;
  summarization_input_guard_tokens = some 900000;
  summarization_strategy = codes "structured_prefix";
  context_editing = false;
  tool_output_cap_bytes = some 40000;
  experiment_mode = true;
}

abbrev pub prod_v3 : MemoryConfig
prod_v3 = record (memory_config (codes "prod_v3")) {
  summarization_trigger_tokens = 500000;
  summarization_keep_tokens = some 50000;
  summarization_trim_tokens = none;
  summarization_input_guard_tokens = some 900000;
  summarization_strategy = codes "structured_prefix";
  context_editing = false;
  tool_output_cap_bytes = some 40000;
  experiment_mode = true;
}

abbrev pub summarization_only : MemoryConfig
summarization_only = record (memory_config (codes "summarization_only")) { context_editing = false }

abbrev pub editing_only : MemoryConfig
editing_only = record (memory_config (codes "editing_only")) { summarization = false }

abbrev pub aggressive : MemoryConfig
aggressive = record (memory_config (codes "aggressive")) {
  summarization_trigger_tokens = 8000;
  summarization_keep_messages = 8;
  context_editing_trigger_tokens = 2000;
  context_editing_keep = 2;
}

abbrev pub profile_memory : MemoryConfig
profile_memory = record (memory_config (codes "profile_memory")) { longterm_memory = true }

abbrev pub clear_retrieval_kb : MemoryConfig
clear_retrieval_kb = record (memory_config (codes "clear_retrieval_kb")) {
  clear_excludes_retrieval = false;
}

abbrev pub observation_truncation : MemoryConfig
observation_truncation = record (memory_config (codes "observation_truncation")) {
  truncate_tool_outputs = true;
}

abbrev pub sliding_window : MemoryConfig
sliding_window = record (memory_config (codes "sliding_window")) {
  summarization = false;
  sliding_window_keep = some 12;
}

abbrev pub prompt_compression : MemoryConfig
prompt_compression = record (memory_config (codes "prompt_compression")) {
  summarization = false;
  compress_prompt = true;
}

abbrev pub selective_retention : MemoryConfig
selective_retention = record (memory_config (codes "selective_retention")) {
  summary_prompt = some selective_retention_summary_prompt;
}

abbrev pub context_reset : MemoryConfig
context_reset = record (memory_config (codes "context_reset")) {
  summary_prompt = some context_reset_summary_prompt;
  summarization_trigger_tokens = 15000;
  summarization_keep_messages = 4;
}

abbrev pub incontext_history_retrieval : MemoryConfig
incontext_history_retrieval = record (memory_config (codes "incontext_history_retrieval")) {
  summarization = false;
  history_retrieval_keep_recent = some 2;
  history_retrieval_top_k = 3;
}

abbrev pub delta_summarization : MemoryConfig
delta_summarization = record (memory_config (codes "delta_summarization")) {
  context_editing = false;
  summary_prompt = some delta_summary_prompt;
}

abbrev pub hierarchical_summarization : MemoryConfig
hierarchical_summarization = record (memory_config (codes "hierarchical_summarization")) {
  summarization = false;
  hierarchical_summarize = true;
}

unfoldable pub memory_presets : Dict Text MemoryConfig
memory_presets =
    (codes "full_history", full_history)
    ∷ (codes "exp_fh_raw", exp_fh_raw)
    ∷ (codes "exp_fh_cap10k", exp_fh_cap10k)
    ∷ (codes "exp_c200_raw", exp_c200_raw)
    ∷ (codes "exp_c200_cap10k", exp_c200_cap10k)
    ∷ (codes "exp_c200_cap10k_structured", exp_c200_cap10k_structured)
    ∷ (codes "exp_c400_cap10k", exp_c400_cap10k)
    ∷ (codes "exp_c800_cap10k", exp_c800_cap10k)
    ∷ (codes "prod", prod)
    ∷ (codes "prod_v2", prod_v2)
    ∷ (codes "prod_v3", prod_v3)
    ∷ (codes "summarization_only", summarization_only)
    ∷ (codes "editing_only", editing_only)
    ∷ (codes "aggressive", aggressive)
    ∷ (codes "profile_memory", profile_memory)
    ∷ (codes "clear_retrieval_kb", clear_retrieval_kb)
    ∷ (codes "observation_truncation", observation_truncation)
    ∷ (codes "sliding_window", sliding_window)
    ∷ (codes "prompt_compression", prompt_compression)
    ∷ (codes "selective_retention", selective_retention)
    ∷ (codes "context_reset", context_reset)
    ∷ (codes "incontext_history_retrieval", incontext_history_retrieval)
    ∷ (codes "delta_summarization", delta_summarization)
    ∷ (codes "hierarchical_summarization", hierarchical_summarization)
    ∷ []

unfoldable pub production_memory_preset : Text
production_memory_preset = codes "prod_v3"

unfoldable pub production_fallback_memory_preset : Text
production_fallback_memory_preset = codes "prod"

unfoldable pub production_long_context_providers : List Text
production_long_context_providers =
    codes "deepseek" ∷ codes "google-genai" ∷ codes "openrouter" ∷ []

unfoldable pub preset_provider_allowlist : Dict Text (List Text)
preset_provider_allowlist =
    (codes "prod_v2", production_long_context_providers)
    ∷ (codes "prod_v3", production_long_context_providers)
    ∷ []
