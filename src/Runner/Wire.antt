-- ===== src/Runner/Wire.antt =====
-- core/runner/events.py: the event as JSON, written by `to_wire` and read by `parse_event`.
pub mod RoundTrip
use git_agent.Base.{
  Text, codes, Bool, true, false, Option, none, some, List, [], ◌∷◌, ◌>>=◌, ◌&&◌, not, is_nil,
  all_by, if◌then◌else◌, map, ℤ, nat_eq, list_eq, ◌==◌, HasEq, or_else,
}
use git_agent.Value.{Value, Values, Fields, null, int, str, arr, nil, cons, end, field_get, truthy}
use git_agent.Value.Entries.{put_entries}
use git_agent.Runner.Event.{Event}

-- Python's `int` and `str` of a value; `none` is the `TypeError` or `ValueError` of `int`.
pub record Convert : Type 0 where
  pub int_of : Value → Option ℤ
  pub str_of : Value → Text

abbrev pub opt_str : Option Text → Value
opt_str none = null
opt_str (some s) = str s

abbrev pub map_opt {ℓ κ} : {A : Type ℓ} {B : Type κ} → (A → B) → Option A → Option B
map_opt f none = none
map_opt f (some a) = some (f a)

unfoldable pub texts : List Text → Values
texts [] = nil
texts (t ∷ ts) = cons (str t) (texts ts)

-- `list(self.changed_files) or None`
unfoldable pub files_value : List Text → Option Value
files_value [] = none
files_value (t ∷ ts) = some (arr (texts (t ∷ ts)))

unfoldable pub wire_entries : Event → List (Text × Option Value)
wire_entries e =
    (codes "eventId", some (int e.event_id))
    ∷ (codes "instanceId", some (int e.instance_id))
    ∷ (codes "threadId", some (str e.thread_id))
    ∷ (codes "repositoryId", some (int e.repository_id))
    ∷ (codes "provider", some (str e.provider))
    ∷ (codes "action", some (str e.action))
    ∷ (codes "dedupKey", some (str e.dedup_key))
    ∷ (codes "commitSha", some (opt_str e.commit_sha))
    ∷ (codes "ref", some (opt_str e.ref))
    ∷ (codes "traceId", some (str e.trace_id))
    ∷ (codes "beforeSha", map_opt str e.before_sha)
    ∷ (codes "baseSha", map_opt str e.base_sha)
    ∷ (codes "headSha", map_opt str e.head_sha)
    ∷ (codes "prNumber", map_opt int e.pr_number)
    ∷ (codes "prTitle", map_opt str e.pr_title)
    ∷ (codes "prBody", map_opt str e.pr_body)
    ∷ (codes "changedFiles", files_value e.changed_files)
    ∷ []

unfoldable pub to_wire : Event → Fields
to_wire e = put_entries (wire_entries e) end

-- `value not in (None, "")`
unfoldable pub present : Option Value → Option Value
present none = none
present (some null) = none
present (some (str [])) = none
present (some v) = some v

-- `_opt_str`
unfoldable pub opt_text : Convert → Option Value → Option Text
opt_text c v = map_opt c.str_of (present v)

-- `set(value) == {"0"}`
unfoldable pub is_zero_sha : Text → Bool
is_zero_sha s = not (is_nil s) && all_by (λ c. c == 48) s

unfoldable pub drop_zero_sha : Option Text → Option Text
drop_zero_sha none = none
drop_zero_sha (some s) = if is_zero_sha s then none else some s

unfoldable pub opt_sha : Convert → Option Value → Option Text
opt_sha c v = drop_zero_sha (opt_text c v)

unfoldable pub strs_of : Convert → Values → List Text
strs_of c nil = []
strs_of c (cons v vs) = c.str_of v ∷ strs_of c vs

unfoldable pub list_of : Convert → Value → Option (List Text)
list_of c (arr vs) = some (strs_of c vs)
list_of c _ = none

unfoldable pub listed : Convert → Bool → Value → Option (List Text)
listed c true v = list_of c v
listed c false v = some []

-- `data.get("changedFiles") or ()`, which must be a list; `none` is the `TypeError`.
unfoldable pub files_of : Convert → Option Value → Option (List Text)
files_of c none = some []
files_of c (some v) = listed c (truthy v) v

-- `int(pr_number) if pr_number not in (None, "") else None`
unfoldable pub int_given : Convert → Option Value → Option (Option ℤ)
int_given c none = some none
int_given c (some v) = c.int_of v >>= λ n. some (some n)

-- `str(data.get("traceId") or "")`
unfoldable pub trace_text : Convert → Bool → Value → Text
trace_text c true v = c.str_of v
trace_text c false v = []

unfoldable pub trace_of : Convert → Option Value → Text
trace_of c none = []
trace_of c (some v) = trace_text c (truthy v) v

-- `none` is the `ValueError`.
unfoldable pub parse_event : Convert → Fields → Option Event
parse_event c d = do
  files ← files_of c (field_get (codes "changedFiles") d)
  event ← field_get (codes "eventId") d >>= c.int_of
  instance_id ← field_get (codes "instanceId") d >>= c.int_of
  thread ← field_get (codes "threadId") d
  repository ← field_get (codes "repositoryId") d >>= c.int_of
  provider ← field_get (codes "provider") d
  action ← field_get (codes "action") d
  dedup ← field_get (codes "dedupKey") d
  number ← int_given c (present (field_get (codes "prNumber") d))
  some (record {
    event_id = event;
    instance_id = instance_id;
    thread_id = c.str_of thread;
    repository_id = repository;
    provider = c.str_of provider;
    action = c.str_of action;
    dedup_key = c.str_of dedup;
    commit_sha = opt_sha c (field_get (codes "commitSha") d);
    ref = opt_text c (field_get (codes "ref") d);
    trace_id = trace_of c (field_get (codes "traceId") d);
    before_sha = opt_sha c (field_get (codes "beforeSha") d);
    base_sha = opt_sha c (field_get (codes "baseSha") d);
    head_sha = opt_sha c (field_get (codes "headSha") d);
    pr_number = number;
    pr_title = opt_text c (field_get (codes "prTitle") d);
    pr_body = opt_text c (field_get (codes "prBody") d);
    changed_files = files;
  })
