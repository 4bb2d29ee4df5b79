-- ===== src/Subagents/Registry/Resolve.antt =====
-- The type that a name means.
use git_agent.Base.{
  Text, Bool, true, false, none, some, [], ◌∷◌, ◌≡◌, refl, if◌then◌else◌, nat_eq, list_eq, ◌==◌,
  ==_refl, ap, if_true, ◌∙◌,
}
use git_agent.Subagents.Registry.{
  general_purpose, builtin_subagents, config_in, get_subagent_config, is_candidate, only_one,
  chosen_of, resolve_name, exact_or, resolve_subagent_config, type_note, normalized_name,
}

known_name : get_subagent_config general_purpose.name ≡ some general_purpose
unfolding get_subagent_config config_in builtin_subagents
known_name = if_true _ _ _ (==_refl general_purpose.name)

only_one-single : (b : Bool) (n : Text) → only_one (if b then n ∷ [] else []) (n ∷ []) ≡ n ∷ []
unfolding only_one
only_one-single true n = refl
only_one-single false n = refl

resolve_name-general_purpose :
    (lower : Text → Text) (name : Text)
    → resolve_name lower name ≡ (some general_purpose, some (type_note name general_purpose.name))
unfolding resolve_name chosen_of builtin_subagents
resolve_name-general_purpose lower name =
    ap (chosen_of name) (
      only_one-single (is_candidate (normalized_name lower name) general_purpose.name)
        general_purpose.name)
    ∙ ap (λ c. (c, some (type_note name general_purpose.name))) known_name

-- Every name is resolved, whatever the model writes and however the case of letters is mapped: to
-- the one registered type, with a note exactly if the name is not its own.
pub resolve_subagent_config-general_purpose :
    (lower : Text → Text) (name : Text)
    → resolve_subagent_config lower name ≡ (
      some general_purpose,
      (if general_purpose.name == name then none else some (type_note name general_purpose.name)),
    )
unfolding resolve_subagent_config exact_or get_subagent_config config_in builtin_subagents
resolve_subagent_config-general_purpose lower name =
    ap (exact_or (get_subagent_config name)) (resolve_name-general_purpose lower name)
    ∙ by_name (general_purpose.name == name)
  where
    by_name :
        (b : Bool)
        → exact_or
            (if b then some general_purpose else none)
            (some general_purpose, some (type_note name general_purpose.name))
          ≡ (some general_purpose, (if b then none else some (type_note name general_purpose.name)))
    by_name true = refl
    by_name false = refl
