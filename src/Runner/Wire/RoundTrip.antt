-- ===== src/Runner/Wire/RoundTrip.antt =====
-- What a runner reads of the event that another one forwards to it.
use git_agent.Base.{
  Text, codes, Option, none, some, List, [], ◌∷◌, ◌≡◌, refl, ap, ap₂, ◌∙◌, ℤ, nat_eq, list_eq,
  list_beq,
}
use git_agent.Value.{Value, int, str, end, field_get, truthy}
use git_agent.Value.Entries.{newer, last_at, field_get-put_entries}
use git_agent.Subagents.Contract.{given}
use git_agent.Runner.Event.{Event}
use git_agent.Runner.Wire.{
  Convert, opt_str, map_opt, texts, files_value, wire_entries, to_wire, present, opt_text,
  drop_zero_sha, opt_sha, strs_of, list_of, listed, files_of, int_given, trace_text, trace_of,
  parse_event,
}

-- The event without the empty texts and the null hashes of its optional fields.
abbrev pub normalized : Event → Event
normalized e = record {
  event_id = e.event_id;
  instance_id = e.instance_id;
  thread_id = e.thread_id;
  repository_id = e.repository_id;
  provider = e.provider;
  action = e.action;
  dedup_key = e.dedup_key;
  commit_sha = drop_zero_sha (given e.commit_sha);
  ref = given e.ref;
  trace_id = e.trace_id;
  before_sha = drop_zero_sha (given e.before_sha);
  base_sha = drop_zero_sha (given e.base_sha);
  head_sha = drop_zero_sha (given e.head_sha);
  pr_number = e.pr_number;
  pr_title = given e.pr_title;
  pr_body = given e.pr_body;
  changed_files = e.changed_files;
}

-- What stands at a key of the wire form.
reads :
    (k : Text) (e : Event) (o : Option Value)
    → last_at k (wire_entries e) none ≡ o
    → field_get k (to_wire e) ≡ o
unfolding to_wire field_get
reads k e o h = field_get-put_entries k (wire_entries e) end ∙ h

newer_of_map {ℓ} :
    {A : Type ℓ} (f : A → Value) (o : Option A) → newer (map_opt f o) none ≡ map_opt f o
newer_of_map f none = refl
newer_of_map f (some a) = refl

newer-files_value : (fs : List Text) → newer (files_value fs) none ≡ files_value fs
unfolding files_value
newer-files_value [] = refl
newer-files_value (f ∷ fs) = refl

-- All of it.
fields-to_wire :
    (e : Event)
    → (field_get (codes "changedFiles") (to_wire e) ≡ files_value e.changed_files)
      × (field_get (codes "eventId") (to_wire e) ≡ some (int e.event_id))
      × (field_get (codes "instanceId") (to_wire e) ≡ some (int e.instance_id))
      × (field_get (codes "threadId") (to_wire e) ≡ some (str e.thread_id))
      × (field_get (codes "repositoryId") (to_wire e) ≡ some (int e.repository_id))
      × (field_get (codes "provider") (to_wire e) ≡ some (str e.provider))
      × (field_get (codes "action") (to_wire e) ≡ some (str e.action))
      × (field_get (codes "dedupKey") (to_wire e) ≡ some (str e.dedup_key))
      × (field_get (codes "prNumber") (to_wire e) ≡ map_opt int e.pr_number)
      × (field_get (codes "commitSha") (to_wire e) ≡ some (opt_str e.commit_sha))
      × (field_get (codes "ref") (to_wire e) ≡ some (opt_str e.ref))
      × (field_get (codes "traceId") (to_wire e) ≡ some (str e.trace_id))
      × (field_get (codes "beforeSha") (to_wire e) ≡ map_opt str e.before_sha)
      × (field_get (codes "baseSha") (to_wire e) ≡ map_opt str e.base_sha)
      × (field_get (codes "headSha") (to_wire e) ≡ map_opt str e.head_sha)
      × (field_get (codes "prTitle") (to_wire e) ≡ map_opt str e.pr_title)
      × (field_get (codes "prBody") (to_wire e) ≡ map_opt str e.pr_body)
unfolding wire_entries codes list_beq
fields-to_wire e = (
  reads _ e _ (newer-files_value e.changed_files),
  reads _ e _ (refl),
  reads _ e _ (refl),
  reads _ e _ (refl),
  reads _ e _ (refl),
  reads _ e _ (refl),
  reads _ e _ (refl),
  reads _ e _ (refl),
  reads _ e _ (newer_of_map int e.pr_number),
  reads _ e _ (refl),
  reads _ e _ (refl),
  reads _ e _ (refl),
  reads _ e _ (newer_of_map str e.before_sha),
  reads _ e _ (newer_of_map str e.base_sha),
  reads _ e _ (newer_of_map str e.head_sha),
  reads _ e _ (newer_of_map str e.pr_title),
  reads _ e _ (newer_of_map str e.pr_body),
)

module _ (c : Convert) (str_str : (s : Text) → c.str_of (str s) ≡ s) where
  opt_text-opt_str : (o : Option Text) → opt_text c (some (opt_str o)) ≡ given o
  unfolding opt_text present given
  opt_text-opt_str none = refl
  opt_text-opt_str (some []) = refl
  opt_text-opt_str (some (x ∷ xs)) = ap some (str_str (x ∷ xs))

  opt_text-map_opt : (o : Option Text) → opt_text c (map_opt str o) ≡ given o
  unfolding opt_text present given
  opt_text-map_opt none = refl
  opt_text-map_opt (some []) = refl
  opt_text-map_opt (some (x ∷ xs)) = ap some (str_str (x ∷ xs))

  strs_of-texts : (ts : List Text) → strs_of c (texts ts) ≡ ts
  unfolding strs_of texts
  strs_of-texts [] = refl
  strs_of-texts (t ∷ ts) = ap₂ (λ a as'. a ∷ as') (str_str t) (strs_of-texts ts)

  files_of-files_value : (ts : List Text) → files_of c (files_value ts) ≡ some ts
  unfolding files_of listed list_of files_value truthy texts strs_of
  files_of-files_value [] = refl
  files_of-files_value (t ∷ ts) = ap some (ap₂ (λ a as'. a ∷ as') (str_str t) (strs_of-texts ts))

  trace_of-str : (t : Text) → trace_of c (some (str t)) ≡ t
  unfolding trace_of trace_text truthy
  trace_of-str [] = refl
  trace_of-str (x ∷ xs) = str_str (x ∷ xs)

  module _ (int_int : (n : ℤ) → c.int_of (int n) ≡ some n) where
    int_given-present : (o : Option ℤ) → int_given c (present (map_opt int o)) ≡ some o
    unfolding int_given present
    int_given-present none = refl
    int_given-present (some n) = rw (int_int n) refl

    -- If `str` of a string is the string, and `int` of an integer the integer, then `parse_event`
    -- accepts every event that `to_wire` wrote, and reads it as it was, but for optional texts that
    -- are empty and hashes of zeros, which it reads as missing.
    pub parse_event-to_wire : (e : Event) → parse_event c (to_wire e) ≡ some (normalized e)
    unfolding parse_event opt_sha
    parse_event-to_wire e =
        let (
          e_files, e_event, e_instance_id, e_thread, e_repository, e_provider, e_action, e_dedup,
          e_number, e_commit, e_ref, e_trace, e_before, e_base, e_head, e_title, e_body,
        ) =
          fields-to_wire e in
        rw
          (
            e_files, e_event, e_instance_id, e_thread, e_repository, e_provider, e_action, e_dedup,
            e_number, e_commit, e_ref, e_trace, e_before, e_base, e_head, e_title, e_body,
          )
          (rw
            (
              files_of-files_value e.changed_files,
              int_int e.event_id,
              int_int e.instance_id,
              int_int e.repository_id,
              int_given-present e.pr_number,
              str_str e.thread_id,
              str_str e.provider,
              str_str e.action,
              str_str e.dedup_key,
              opt_text-opt_str e.commit_sha,
              opt_text-opt_str e.ref,
              trace_of-str e.trace_id,
              opt_text-map_opt e.before_sha,
              opt_text-map_opt e.base_sha,
              opt_text-map_opt e.head_sha,
              opt_text-map_opt e.pr_title,
              opt_text-map_opt e.pr_body,
            )
            refl)
