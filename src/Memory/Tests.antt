-- ===== src/Memory/Tests.antt =====
-- The policy of two models.
use git_agent.Base.{
  codes, none, [], ◌≡◌, strip, lstrip, rstrip, is_space, nat_eq, list_eq, list_beq,
}
use git_agent.Subagents.Registry.{starts_with}
use git_agent.Memory.{
  resolved, refused, before_colon, provider_of, model_provider, unsupported, resolve_memory_preset,
}
use git_agent.Memory.Presets.{prod, production_memory_preset, production_long_context_providers}
use git_agent.Memory.Default.{resolve_memory_preset-default}

resolve_memory_preset-default_example :
    resolve_memory_preset (λ t. t) [] none (codes "claude-x") ≡ resolved prod
unfolding model_provider provider_of before_colon strip rstrip lstrip is_space starts_with
    production_long_context_providers list_beq codes
resolve_memory_preset-default_example = resolve_memory_preset-default (λ t. t) (codes "claude-x")

-- The production policy is chosen for this model, and then refused.
unknown_provider :
    resolve_memory_preset (λ t. t) [] none (codes "m")
    ≡ refused (unsupported (λ t. t) production_memory_preset (codes "m"))
unfolding model_provider provider_of before_colon strip rstrip lstrip is_space starts_with
    production_long_context_providers list_beq codes
unknown_provider = resolve_memory_preset-default (λ t. t) (codes "m")
