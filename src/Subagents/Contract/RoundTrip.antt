-- ===== src/Subagents/Contract/RoundTrip.antt =====
-- What the reader of the metadata finds of what the producer put there.
use git_agent.Base.{
  Text, codes, Bool, true, false, Option, none, some, List, [], ◌∷◌, ◌≡◌, refl, ap, ◌∙◌, ℕ, ◌&&◌,
  not, if◌then◌else◌, contains, is_nil, nat_eq, list_eq, list_beq, if_true, arith,
}
use git_agent.Value.{Value, Fields, null, bool, other, str, obj, arr, int, end, field_get}
use git_agent.Subagents.Lifecycle.{
  SubagentStatus, is_terminal, pending, running, completed, failed, cancelled, timed_out,
}
use git_agent.Subagents.Contract
use git_agent.Subagents.Contract.{
  Report, StructuredSubagentResult, entries, make_subagent_additional_kwargs,
  read_subagent_result_metadata, read_fields, status_value, status_values, stop_reason_values,
  is_known_stop, known, text_of, given, is_sha256_hex, sha_of, dicts, objects, receipts_of, dict_of,
  usage_of, usage_fields, natural_of, normalize_token_usage, truncate_head_tail,
  metadata_text_max_chars, map_opt, when_some, is_completed,
}
use git_agent.Value.Entries.{put_entries, newer, last_at, field_get-put_entries}
use git_agent.Subagents.Contract.Truncate.{truncate_head_tail_idem, truncate_head_tail_given}

abbrev shorten : Text → Text
shorten = truncate_head_tail metadata_text_max_chars

newer-none : (o : Option Value) → newer o none ≡ o
newer-none none = refl
newer-none (some v) = refl

known_stop :
    (o : Option Text) → is_known_stop o ≡ true → known stop_reason_values (map_opt str o) ≡ o
unfolding known is_known_stop
known_stop none h = refl
known_stop (some s) h = if_true _ _ _ h

-- Every terminal status is on the list, and no other.
pub status_value-known :
    (s : SubagentStatus) → contains (status_value s) status_values ≡ is_terminal s
unfolding status_value status_values is_terminal codes list_beq
status_value-known pending = refl
status_value-known running = refl
status_value-known completed = refl
status_value-known failed = refl
status_value-known cancelled = refl
status_value-known timed_out = refl

given_of_given : (text : Text) → is_nil text ≡ false → given (some text) ≡ some text
unfolding given
given_of_given [] h = cc
given_of_given (c ∷ cs) h = refl

-- A given text comes back shortened, and is not shortened again.
text_of_short :
    (o : Option Text) (b : Bool)
    → map_opt shorten (text_of (map_opt (λ e. str (shorten e)) (when_some b (given o))))
      ≡ map_opt shorten (when_some b (given o))
unfolding text_of given
text_of_short o false = refl
text_of_short none true = refl
text_of_short (some []) true = refl
text_of_short (some (c ∷ cs)) true =
    ap (map_opt shorten) (
      given_of_given (shorten (c ∷ cs))
        (truncate_head_tail_given metadata_text_max_chars (c ∷ cs) (omega arith) refl))
    ∙ ap some (truncate_head_tail_idem metadata_text_max_chars (c ∷ cs) (omega arith))

text_of-given : (o : Option Text) → text_of (map_opt str (given o)) ≡ given o
unfolding text_of given
text_of-given none = refl
text_of-given (some []) = refl
text_of-given (some (c ∷ cs)) = refl

sha_of_hash :
    (sha256 : Text → Text) (o : Option Text)
    → ((t : Text) → is_sha256_hex (sha256 t) ≡ true)
    → sha_of (map_opt (λ t. str (sha256 t)) o) ≡ map_opt sha256 o
unfolding sha_of
sha_of_hash sha256 none h = refl
sha_of_hash sha256 (some t) h = if_true _ _ _ (h t)

normalize-usage_of :
    (i o t : Option ℕ) → normalize_token_usage (map_opt obj (usage_of i o t)) ≡ usage_of i o t
unfolding normalize_token_usage usage_of usage_fields natural_of field_get codes list_beq
normalize-usage_of (some i) (some o) (some t) = refl
normalize-usage_of (some i) (some o) none = refl
normalize-usage_of (some i) none t = refl
normalize-usage_of none o t = refl

normalize_token_usage_idem :
    (v : Option Value)
    → normalize_token_usage (map_opt obj (normalize_token_usage v)) ≡ normalize_token_usage v
unfolding normalize_token_usage
normalize_token_usage_idem none = refl
normalize_token_usage_idem (some null) = refl
normalize_token_usage_idem (some (bool b)) = refl
normalize_token_usage_idem (some (int n)) = refl
normalize_token_usage_idem (some (str s)) = refl
normalize_token_usage_idem (some (arr vs)) = refl
normalize_token_usage_idem (some (other s)) = refl
normalize_token_usage_idem (some (obj d)) = normalize-usage_of _ _ _

dicts-objects : (ds : List Fields) → dicts (objects ds) ≡ ds
unfolding dicts objects
dicts-objects [] = refl
dicts-objects (d ∷ ds) = ap (λ r. d ∷ r) (dicts-objects ds)

receipts_of-objects :
    (o : Option (List Fields)) → receipts_of (map_opt (λ ds. arr (objects ds)) o) ≡ o
unfolding receipts_of
receipts_of-objects none = refl
receipts_of-objects (some ds) = ap some (dicts-objects ds)

dict_of_obj : (o : Option Fields) → dict_of (map_opt obj o) ≡ o
unfolding dict_of
dict_of_obj none = refl
dict_of_obj (some d) = refl

-- What a reader may learn of a report: its texts shortened, and nothing that is empty or invalid.
abbrev pub learned : (Text → Text) → Report → StructuredSubagentResult
learned sha256 r = record {
  status = status_value r.status;
  stop_reason = r.stop_reason;
  error = map_opt shorten (when_some (not (is_completed r.status)) (given r.error));
  result_brief = map_opt shorten (when_some (is_completed r.status) (given r.result));
  result_sha256 = map_opt sha256 (when_some (is_completed r.status) (given r.result));
  model_name = given r.model_name;
  token_usage = normalize_token_usage r.token_usage;
  tool_receipts = r.tool_receipts;
  receipt_verdict = r.receipt_verdict;
}

module _ (sha256 : Text → Text) (r : Report) where
  abbrev put : Fields
  put = put_entries (entries sha256 r) end

  -- What stands at a key, if it is the `o` of the entries that comes out.
  reads :
      (k : Text) (o : Option Value)
      → last_at k (entries sha256 r) none ≡ newer o none
      → field_get k put ≡ o
  unfolding field_get
  reads k o h = field_get-put_entries k (entries sha256 r) end ∙ h ∙ newer-none o

  read_fields-put :
      is_known_stop r.stop_reason ≡ true
      → ((t : Text) → is_sha256_hex (sha256 t) ≡ true)
      → read_fields put (status_value r.status) ≡ learned sha256 r
  unfolding read_fields entries Contract.subagent_status_key Contract.subagent_stop_reason_key
      Contract.subagent_error_key Contract.subagent_result_brief_key
      Contract.subagent_result_sha256_key Contract.subagent_model_name_key
      Contract.subagent_token_usage_key Contract.subagent_tool_receipts_key
      Contract.subagent_receipt_verdict_key codes list_beq
  read_fields-put known_reason hash =
      let stop =
        ap (known stop_reason_values) (reads Contract.subagent_stop_reason_key _ refl)
        ∙ known_stop r.stop_reason known_reason in
      let error =
        ap (λ o. map_opt shorten (text_of o)) (reads Contract.subagent_error_key _ refl)
        ∙ text_of_short r.error (not (is_completed r.status)) in
      let brief =
        ap (λ o. map_opt shorten (text_of o)) (reads Contract.subagent_result_brief_key _ refl)
        ∙ text_of_short r.result (is_completed r.status) in
      let sha =
        ap sha_of (reads Contract.subagent_result_sha256_key _ refl) ∙ sha_of_hash sha256 _ hash in
      let model =
        ap text_of (reads Contract.subagent_model_name_key _ refl) ∙ text_of-given r.model_name in
      let usage =
        ap normalize_token_usage (reads Contract.subagent_token_usage_key _ refl)
        ∙ normalize_token_usage_idem r.token_usage in
      let receipts =
        ap receipts_of (reads Contract.subagent_tool_receipts_key _ refl)
        ∙ receipts_of-objects r.tool_receipts in
      let verdict =
        ap dict_of (reads Contract.subagent_receipt_verdict_key _ refl)
        ∙ dict_of_obj r.receipt_verdict in
      λ i. record {
        status = status_value r.status;
        stop_reason = stop i;
        error = error i;
        result_brief = brief i;
        result_sha256 = sha i;
        model_name = model i;
        token_usage = usage i;
        tool_receipts = receipts i;
        receipt_verdict = verdict i;
      }

  known_status :
      (b : Bool)
      → is_terminal r.status ≡ b
      → known status_values (field_get Contract.subagent_status_key put)
        ≡ (if b then some (status_value r.status) else none)
  unfolding entries known Contract.subagent_status_key Contract.subagent_stop_reason_key
      Contract.subagent_error_key Contract.subagent_result_brief_key
      Contract.subagent_result_sha256_key Contract.subagent_model_name_key
      Contract.subagent_token_usage_key Contract.subagent_tool_receipts_key
      Contract.subagent_receipt_verdict_key codes list_beq
  known_status b h =
      ap (known status_values)
        (reads Contract.subagent_status_key (some (str (status_value r.status))) refl)
      ∙ ap (λ c. if c then some (status_value r.status) else none) (status_value-known r.status ∙ h)

  made :
      (s k : Bool)
      → is_terminal r.status ≡ s
      → is_known_stop r.stop_reason ≡ k
      → ((t : Text) → is_sha256_hex (sha256 t) ≡ true)
      → read_subagent_result_metadata (if s && k then some put else none)
        ≡ (if s && k then some (learned sha256 r) else none)
  unfolding read_subagent_result_metadata
  made true true s k hash =
      ap (map_opt (read_fields put)) (known_status true s) ∙ ap some (read_fields-put k hash)
  made true false s k hash = refl
  made false k' s k hash = refl

  -- If the hash is always 64 hexadecimal digits, then what the reader makes of the producer's
  -- metadata is exactly what there is to learn of the report; and where the producer raises, for a
  -- status that is not terminal or an unknown stop reason, the reader has nothing.
  pub read-make :
      ((t : Text) → is_sha256_hex (sha256 t) ≡ true)
      → read_subagent_result_metadata (make_subagent_additional_kwargs sha256 r) ≡ (
          if is_terminal r.status && is_known_stop r.stop_reason
          then some (learned sha256 r)
          else none)
  unfolding make_subagent_additional_kwargs
  read-make hash =
      ap
        (λ b.
          read_subagent_result_metadata
            (if b && is_known_stop r.stop_reason then some put else none))
        (status_value-known r.status)
      ∙ made _ _ refl refl hash
