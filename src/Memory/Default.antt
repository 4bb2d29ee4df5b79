-- ===== src/Memory/Default.antt =====
-- The policy of a model for which none is named.
use git_agent.Base.{
  Text, codes, Bool, true, false, none, [], ◌∷◌, ◌≡◌, refl, ◌&&◌, ◌||◌, not, is_nil, contains,
  strip, lstrip, rstrip, get, if◌then◌else◌, nat_eq, list_eq, list_beq, true≢false,
}
use git_agent.Memory.{
  Resolved, resolved, refused, model_provider, production_memory_preset_name,
  memory_preset_supports_model, unsupported, check_preset, resolve_memory_preset,
}
use git_agent.Memory.Presets.{
  memory_presets, production_memory_preset, production_fallback_memory_preset,
  production_long_context_providers, preset_provider_allowlist, prod, prod_v3,
}

module _ (checked : Text → Resolved) (text : Text) where
  choices :
      (blank lists empty : Bool)
      → (blank ≡ true → lists ≡ false)
      → checked production_memory_preset
        ≡ (if empty || lists then resolved prod_v3 else refused text)
      → checked production_fallback_memory_preset ≡ resolved prod
      → checked
          (if blank || lists then production_memory_preset else production_fallback_memory_preset)
        ≡ (if not empty && blank
            then refused text
            else resolved (if blank || lists then prod_v3 else prod))
  choices true true empty h new old = absurd (true≢false (h refl))
  choices true false true h new old = new
  choices true false false h new old = new
  choices false true true h new old = new
  choices false true false h new old = new
  choices false false true h new old = old
  choices false false false h new old = old

blank_is_not_listed :
    (p : Text) → is_nil p ≡ true → contains p production_long_context_providers ≡ false
unfolding production_long_context_providers codes list_beq
blank_is_not_listed [] h = refl
blank_is_not_listed (c ∷ p) h = cc

listed_preset :
    (repr : Text → Text) (model_name : Text)
    → check_preset repr production_memory_preset model_name
        (get production_memory_preset memory_presets)
      ≡ (if is_nil model_name
            || contains (model_provider model_name) production_long_context_providers
          then resolved prod_v3
          else refused (unsupported repr production_memory_preset model_name))
unfolding check_preset memory_preset_supports_model get memory_presets production_memory_preset
    preset_provider_allowlist list_beq codes
listed_preset repr model_name = refl

open_preset :
    (repr : Text → Text) (model_name : Text)
    → check_preset repr production_fallback_memory_preset model_name
        (get production_fallback_memory_preset memory_presets)
      ≡ resolved prod
unfolding check_preset memory_preset_supports_model get memory_presets
    production_fallback_memory_preset preset_provider_allowlist list_beq codes
open_preset repr model_name = refl

-- With no name and no variable, the production policy is chosen for a model of a provider on the
-- list or of none that is known, and the fallback for any other. It is then refused exactly if the
-- model has a name and its provider is not known.
pub resolve_memory_preset-default :
    (repr : Text → Text) (model_name : Text)
    → let provider = model_provider model_name in
      resolve_memory_preset repr [] none model_name ≡ (
        if not (is_nil model_name) && is_nil provider
        then refused (unsupported repr production_memory_preset model_name)
        else resolved (
            if is_nil provider || contains provider production_long_context_providers
            then prod_v3
            else prod))
unfolding resolve_memory_preset production_memory_preset_name strip lstrip rstrip
resolve_memory_preset-default repr model_name =
    let provider = model_provider model_name in
    let checked : Text → Resolved = λ t. check_preset repr t model_name (get t memory_presets) in
    choices checked (unsupported repr production_memory_preset model_name) (is_nil provider)
      (contains provider production_long_context_providers) (is_nil model_name)
      (blank_is_not_listed provider) (listed_preset repr model_name) (open_preset repr model_name)
