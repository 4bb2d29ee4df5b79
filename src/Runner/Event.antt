-- ===== src/Runner/Event.antt =====
-- core/runner/events.py: the event that a webhook causes.
use git_agent.Base.{
  Text, codes, Bool, false, Option, none, some, List, [], ◌∷◌, ℤ, ◌||◌, not, is_nil, contains,
  nat_eq, list_eq,
}

pub record Event : Type 0 where
  pub event_id : ℤ
  pub instance_id : ℤ
  pub thread_id : Text
  pub repository_id : ℤ
  pub provider : Text
  pub action : Text
  pub dedup_key : Text
  pub commit_sha : Option Text
  pub ref : Option Text
  pub trace_id : Text
  pub before_sha : Option Text
  pub base_sha : Option Text
  pub head_sha : Option Text
  pub pr_number : Option ℤ
  pub pr_title : Option Text
  pub pr_body : Option Text
  pub changed_files : List Text

unfoldable pub actions_without_commit : List Text
actions_without_commit = codes "full_scan" ∷ codes "manual" ∷ []

-- `bool(s)` of an optional string
unfoldable pub is_given : Option Text → Bool
is_given none = false
is_given (some s) = not (is_nil s)

unfoldable pub has_code_target : Event → Bool
has_code_target e =
    is_given e.commit_sha || is_given e.head_sha || contains e.action actions_without_commit
