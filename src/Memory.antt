-- ===== src/Memory.antt =====
-- core/memory/__init__.py: which memory policy a model gets.
pub mod Config
pub mod Prompts
pub mod Presets
pub mod Default
mod Tests
use git_agent.Base.{
  Text, codes, Bool, true, false, Option, none, some, List, [], ◌∷◌, ◌++◌, ◌&&◌, ◌||◌, not, is_nil,
  contains, map, strip, join, text_leb, sorted, Dict, get, or_else, keys, if◌then◌else◌, nat_eq,
  list_eq, ◌==◌,
}
use git_agent.Subagents.Registry.{starts_with}
use git_agent.Memory.Config.{MemoryConfig}
use git_agent.Memory.Presets.{
  memory_presets, production_memory_preset, production_fallback_memory_preset,
  production_long_context_providers, preset_provider_allowlist,
}

-- `text.partition(":")[0]`
unfoldable pub before_colon : Text → Text
before_colon [] = []
before_colon (c ∷ s) = let rest = before_colon s in if c == 58 then [] else c ∷ rest

unfoldable pub provider_of : Text → Text
provider_of normalized =
    if contains 58 normalized
    then before_colon normalized
    else (if starts_with (codes "gpt-") normalized
        then codes "openai"
        else (if starts_with (codes "claude") normalized
            then codes "anthropic"
            else (if starts_with (codes "gemini") normalized
                then codes "google-genai"
                else (if starts_with (codes "deepseek") normalized then codes "deepseek" else []))))

unfoldable pub model_provider : Text → Text
model_provider model_name = provider_of (strip model_name)

unfoldable pub production_memory_preset_name : Text → Text
production_memory_preset_name model_name =
    let provider = model_provider model_name in
    if is_nil provider || contains provider production_long_context_providers
    then production_memory_preset
    else production_fallback_memory_preset

abbrev pub allows : Option (List Text) → Text → Bool
allows none model_name = true
allows (some allowed) model_name = is_nil model_name || contains (model_provider model_name) allowed

unfoldable pub memory_preset_supports_model : Text → Text → Bool
memory_preset_supports_model preset_name model_name =
    allows (get preset_name preset_provider_allowlist) model_name

-- A policy, or the text of the `ValueError`.
pub data Resolved : Type 0 where
  resolved : MemoryConfig → Resolved
  refused : Text → Resolved

-- `a or b`
abbrev pub or_next : Text → Text → Text
or_next [] b = b
or_next (c ∷ s) b = c ∷ s

-- The sorted names with commas.
unfoldable pub listed : List Text → Text
listed names = join (codes ", ") (sorted text_leb names)

unfoldable pub unknown_preset : (Text → Text) → Text → Text
unknown_preset repr requested =
    codes "Unknown memory preset "
    ++ repr requested
    ++ codes ". Known presets: "
    ++ listed (keys memory_presets)

unfoldable pub unsupported : (Text → Text) → Text → Text → Text
unsupported repr requested model_name =
    codes "Memory preset "
    ++ repr requested
    ++ codes " does not support provider "
    ++ repr (or_next (model_provider model_name) (codes "unknown"))
    ++ codes "; supported providers: "
    ++ listed (or_else (get requested preset_provider_allowlist) [])

unfoldable pub check_preset : (Text → Text) → Text → Text → Option MemoryConfig → Resolved
check_preset repr requested model_name none = refused (unknown_preset repr requested)
check_preset repr requested model_name (some config) =
    if memory_preset_supports_model requested model_name
    then resolved config
    else refused (unsupported repr requested model_name)

-- With `repr`, and the value of the variable GIT_AGENT_MEMORY_PRESET.
unfoldable pub resolve_memory_preset : (Text → Text) → Text → Option Text → Text → Resolved
resolve_memory_preset repr environment name model_name =
    let requested =
      or_next (strip (or_else name []))
        (or_next (strip environment) (production_memory_preset_name model_name)) in
    check_preset repr requested model_name (get requested memory_presets)
