-- ===== src/Subagents/Contract.antt =====
-- core/subagents/contract.py: the result of a delegation as metadata of its tool message.
pub mod Truncate
pub mod RoundTrip
use git_agent.Base.{
  Text, codes, Bool, true, false, Option, none, some, List, [], ◌∷◌, ◌++◌, ℕ, ◌+◌, ◌-◌, ◌*◌, ◌/◌,
  ◌&&◌, ◌||◌, not, if◌then◌else◌, or_else, leb, ltb, length, take, drop, contains, is_nil, all_by,
  map, ℤ, pos, negsuc, nat_eq, list_eq, ◌==◌, HasEq,
}
use git_agent.Value.{
  Value, Values, Fields, null, bool, int, str, arr, obj, other, nil, cons, field, end, field_get,
  field_put,
}
use git_agent.Value.Entries.{put_entries}
use git_agent.Subagents.Lifecycle.{
  SubagentStatus, pending, running, completed, failed, cancelled, timed_out,
}

unfoldable pub subagent_status_key : Text
subagent_status_key = codes "subagent_status"

unfoldable pub subagent_stop_reason_key : Text
subagent_stop_reason_key = codes "subagent_stop_reason"

unfoldable pub subagent_error_key : Text
subagent_error_key = codes "subagent_error"

unfoldable pub subagent_result_brief_key : Text
subagent_result_brief_key = codes "subagent_result_brief"

unfoldable pub subagent_result_sha256_key : Text
subagent_result_sha256_key = codes "subagent_result_sha256"

unfoldable pub subagent_model_name_key : Text
subagent_model_name_key = codes "subagent_model_name"

unfoldable pub subagent_token_usage_key : Text
subagent_token_usage_key = codes "subagent_token_usage"

unfoldable pub subagent_tool_receipts_key : Text
subagent_tool_receipts_key = codes "subagent_tool_receipts"

unfoldable pub subagent_receipt_verdict_key : Text
subagent_receipt_verdict_key = codes "subagent_receipt_verdict"

abbrev pub metadata_text_max_chars : ℕ
metadata_text_max_chars = 2000

unfoldable pub status_value : SubagentStatus → Text
status_value pending = codes "pending"
status_value running = codes "running"
status_value completed = codes "completed"
status_value failed = codes "failed"
status_value cancelled = codes "cancelled"
status_value timed_out = codes "timed_out"

unfoldable pub status_values : List Text
status_values = codes "completed" ∷ codes "failed" ∷ codes "cancelled" ∷ codes "timed_out" ∷ []

unfoldable pub stop_reason_values : List Text
stop_reason_values = codes "token_capped" ∷ codes "turn_capped" ∷ codes "loop_capped" ∷ []

-- `text[-(a - b):]`, for any `a` and `b`
unfoldable pub last_chars : ℕ → ℕ → Text → Text
last_chars a b text = if ltb b a then drop (length text - (a - b)) text else drop (b - a) text

unfoldable pub truncate_head_tail : ℕ → Text → Text
truncate_head_tail max_chars text =
    let head = max_chars * 2 / 3 in
    if leb (length text) max_chars
    then text
    else take head text ++ codes "\n...\n" ++ last_chars max_chars (head + 5) text

-- `isinstance(item, int)`, not a `bool`, and not negative
unfoldable pub natural_of : Option Value → Option ℕ
natural_of (some (int (pos n))) = some n
natural_of _ = none

unfoldable pub usage_fields : ℕ → ℕ → ℕ → Fields
usage_fields i o t =
    field (codes "input_tokens") (int (pos i))
      (field (codes "output_tokens") (int (pos o)) (field (codes "total_tokens") (int (pos t)) end))

unfoldable pub usage_of : Option ℕ → Option ℕ → Option ℕ → Option Fields
usage_of (some i) (some o) (some t) = some (usage_fields i o t)
usage_of (some i) (some o) none = none
usage_of (some i) none t = none
usage_of none o t = none

unfoldable pub normalize_token_usage : Option Value → Option Fields
normalize_token_usage (some (obj d)) =
    usage_of (natural_of (field_get (codes "input_tokens") d))
      (natural_of (field_get (codes "output_tokens") d))
      (natural_of (field_get (codes "total_tokens") d))
normalize_token_usage _ = none

-- The arguments of `make_subagent_additional_kwargs`.
pub record Report : Type 0 where
  pub status : SubagentStatus
  pub result : Option Text
  pub error : Option Text
  pub stop_reason : Option Text
  pub model_name : Option Text
  pub token_usage : Option Value
  pub tool_receipts : Option (List Fields)
  pub receipt_verdict : Option Fields

-- A string that is there and not empty.
unfoldable pub given : Option Text → Option Text
given none = none
given (some []) = none
given (some s) = some s

unfoldable pub is_completed : SubagentStatus → Bool
is_completed completed = true
is_completed _ = false

abbrev pub map_opt : {A B : Type 0} → (A → B) → Option A → Option B
map_opt f none = none
map_opt f (some a) = some (f a)

unfoldable pub objects : List Fields → Values
objects [] = nil
objects (d ∷ ds) = cons (obj d) (objects ds)

abbrev pub when_some : {A : Type 0} → Bool → Option A → Option A
when_some b o = if b then o else none

-- The entries in the order in which they are put; those without a value are left out. The SHA-256
-- of a text, in hexadecimal, is the parameter.
unfoldable pub entries : (Text → Text) → Report → List (Text × Option Value)
entries sha256 r =
    (subagent_status_key, some (str (status_value r.status)))
    ∷ (subagent_stop_reason_key, map_opt str r.stop_reason)
    ∷ (
      subagent_error_key,
      map_opt (λ e. str (truncate_head_tail metadata_text_max_chars e))
          (when_some (not (is_completed r.status)) (given r.error)),
    )
    ∷ (
      subagent_result_brief_key,
      map_opt (λ t. str (truncate_head_tail metadata_text_max_chars t))
          (when_some (is_completed r.status) (given r.result)),
    )
    ∷ (
      subagent_result_sha256_key,
      map_opt (λ t. str (sha256 t)) (when_some (is_completed r.status) (given r.result)),
    )
    ∷ (subagent_model_name_key, map_opt str (given r.model_name))
    ∷ (subagent_token_usage_key, map_opt obj (normalize_token_usage r.token_usage))
    ∷ (subagent_tool_receipts_key, map_opt (λ ds. arr (objects ds)) r.tool_receipts)
    ∷ (subagent_receipt_verdict_key, map_opt obj r.receipt_verdict)
    ∷ []

unfoldable pub is_known_stop : Option Text → Bool
is_known_stop none = true
is_known_stop (some s) = contains s stop_reason_values

-- `none` stands for the `ValueError`.
unfoldable pub make_subagent_additional_kwargs : (Text → Text) → Report → Option Fields
make_subagent_additional_kwargs sha256 r =
    if contains (status_value r.status) status_values && is_known_stop r.stop_reason
    then some (put_entries (entries sha256 r) end)
    else none

-- `StructuredSubagentResult`
pub record StructuredSubagentResult : Type 0 where
  pub status : Text
  pub stop_reason : Option Text
  pub error : Option Text
  pub result_brief : Option Text
  pub result_sha256 : Option Text
  pub model_name : Option Text
  pub token_usage : Option Fields
  pub tool_receipts : Option (List Fields)
  pub receipt_verdict : Option Fields

-- `value in values`
unfoldable pub known : List Text → Option Value → Option Text
known values (some (str s)) = if contains s values then some s else none
known values _ = none

-- A string that is not empty.
unfoldable pub text_of : Option Value → Option Text
text_of (some (str s)) = given (some s)
text_of _ = none

-- `[0-9a-f]{64}`
unfoldable pub is_sha256_hex : Text → Bool
is_sha256_hex s =
    length s == 64 && all_by (λ c. (leb 48 c && leb c 57) || (leb 97 c && leb c 102)) s

unfoldable pub sha_of : Option Value → Option Text
sha_of (some (str s)) = if is_sha256_hex s then some s else none
sha_of _ = none

-- `[r for r in receipts if isinstance(r, dict)]`
unfoldable pub dicts : Values → List Fields
dicts nil = []
dicts (cons (obj d) vs) = d ∷ dicts vs
dicts (cons _ vs) = dicts vs

unfoldable pub receipts_of : Option Value → Option (List Fields)
receipts_of (some (arr vs)) = some (dicts vs)
receipts_of _ = none

unfoldable pub dict_of : Option Value → Option Fields
dict_of (some (obj d)) = some d
dict_of _ = none

unfoldable pub read_fields : Fields → Text → StructuredSubagentResult
read_fields d status = record {
  status = status;
  stop_reason = known stop_reason_values (field_get subagent_stop_reason_key d);
  error =
      map_opt (truncate_head_tail metadata_text_max_chars)
        (text_of (field_get subagent_error_key d));
  result_brief =
      map_opt (truncate_head_tail metadata_text_max_chars)
        (text_of (field_get subagent_result_brief_key d));
  result_sha256 = sha_of (field_get subagent_result_sha256_key d);
  model_name = text_of (field_get subagent_model_name_key d);
  token_usage = normalize_token_usage (field_get subagent_token_usage_key d);
  tool_receipts = receipts_of (field_get subagent_tool_receipts_key d);
  receipt_verdict = dict_of (field_get subagent_receipt_verdict_key d);
}

unfoldable pub read_subagent_result_metadata : Option Fields → Option StructuredSubagentResult
read_subagent_result_metadata none = none
read_subagent_result_metadata (some d) =
    map_opt (read_fields d) (known status_values (field_get subagent_status_key d))
