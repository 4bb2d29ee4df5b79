-- ===== src/Memory/Config.antt =====
-- core/memory/config.py: the settings of a memory policy.
use git_agent.Base.{Text, codes, Bool, true, false, Option, none, some, ℕ}

pub record MemoryConfig : Type 0 where
  pub name : Text
  pub summarization : Bool
  pub summarization_trigger_tokens : ℕ
  pub summarization_keep_messages : ℕ
  pub summarization_keep_tokens : Option ℕ
  pub summarization_trim_tokens : Option ℕ
  pub summarization_input_guard_tokens : Option ℕ
  pub summary_prompt : Option Text
  pub summarization_strategy : Text
  pub context_editing : Bool
  pub context_editing_trigger_tokens : ℕ
  pub context_editing_keep : ℕ
  pub clear_excludes_retrieval : Bool
  pub longterm_memory : Bool
  pub sliding_window_keep : Option ℕ
  pub truncate_tool_outputs : Bool
  pub truncate_head_chars : ℕ
  pub truncate_tail_chars : ℕ
  pub truncate_trigger_chars : ℕ
  pub tool_output_cap_bytes : Option ℕ
  pub experiment_mode : Bool
  pub experiment_request_guard_tokens : ℕ
  pub compress_prompt : Bool
  pub history_retrieval_keep_recent : Option ℕ
  pub history_retrieval_top_k : ℕ
  pub hierarchical_summarize : Bool
  pub hierarchical_trigger_tokens : ℕ
  pub hierarchical_keep_recent : ℕ
  pub hierarchical_group_size : ℕ

-- The defaults of the class.
unfoldable pub memory_config : Text → MemoryConfig
memory_config name = record {
  name = name;
  summarization = true;
  summarization_trigger_tokens = 30000;
  summarization_keep_messages = 20;
  summarization_keep_tokens = none;
  summarization_trim_tokens = some 4000;
  summarization_input_guard_tokens = none;
  summary_prompt = none;
  summarization_strategy = codes "xml";
  context_editing = true;
  context_editing_trigger_tokens = 5000;
  context_editing_keep = 5;
  clear_excludes_retrieval = true;
  longterm_memory = false;
  sliding_window_keep = none;
  truncate_tool_outputs = false;
  truncate_head_chars = 2000;
  truncate_tail_chars = 500;
  truncate_trigger_chars = 4000;
  tool_output_cap_bytes = none;
  experiment_mode = false;
  experiment_request_guard_tokens = 990000;
  compress_prompt = false;
  history_retrieval_keep_recent = none;
  history_retrieval_top_k = 3;
  hierarchical_summarize = false;
  hierarchical_trigger_tokens = 8000;
  hierarchical_keep_recent = 6;
  hierarchical_group_size = 5;
}
