-- ===== src/Runner/WorkLog.antt =====
-- core/runner/activity.py: the frames of the work log, which preview what an agent thinks, calls and
-- gets.
use git_agent.Base.{
  Text, codes, Bool, true, false, Option, none, some, List, [], ◌∷◌, ◌++◌, ◌>>=◌, ℕ, if◌then◌else◌,
  leb, length, take, strip, join, ℤ, pos, or_else, ◌&&◌,
}
use git_agent.Value.{
  Value, Values, Fields, null, str, arr, obj, nil, cons, end, field, field_get, truthy,
}
use git_agent.Runner.Content.{message_text}

-- Python's `str`, `json.dumps`, `json.loads` and `int`; `none` is their exception.
pub record Python : Type 0 where
  pub str_of : Value → Text
  pub dumps : Value → Text
  pub loads : Text → Option Value
  pub int_of : Value → Option ℤ

-- A frame without its time, of which the fields that are `None` are left out.
pub record ActivityFrame : Type 0 where
  pub kind : Text
  pub task_id : Option Text
  pub description : Option Value
  pub status : Option Text
  pub findings_count : Option ℕ
  pub text : Option Text
  pub tokens : Option (ℤ × ℤ)

unfoldable pub frame_of : Text → ActivityFrame
frame_of kind = record {
  kind = kind;
  task_id = none;
  description = none;
  status = none;
  findings_count = none;
  text = none;
  tokens = none;
}

abbrev pub work_call_chars : ℕ
work_call_chars = 400

abbrev pub work_result_chars : ℕ
work_result_chars = 800

abbrev pub work_text_chars : ℕ
work_text_chars = 2000

unfoldable pub clip : Text → ℕ → Text
clip text limit =
    let t = strip text in if leb (length t) limit then t else take limit t ++ codes "…"

-- `str(v or default)`
unfoldable pub str_or : Python → Value → Text → Text
str_or p v default = if truthy v then p.str_of v else default

-- `d.get(k)`, with `None` for a missing key
unfoldable pub get_or_null : Text → Fields → Value
get_or_null k d = or_else (field_get k d) null

unfoldable pub parsed_args : Python → Value → Value
parsed_args p (str s) = or_else (p.loads s) (str s)
parsed_args p v = v

unfoldable pub arg_texts : Python → Fields → List Text
arg_texts p end = []
arg_texts p (field k v d) = (k ++ codes "=" ++ p.dumps v) ∷ arg_texts p d

unfoldable pub rendered_args : Python → Value → Text
rendered_args p (obj d) = join (codes ", ") (arg_texts p d)
rendered_args p null = []
rendered_args p (str []) = []
rendered_args p v = p.str_of v

unfoldable pub call_line : Python → Value → Value → Text
call_line p name args =
    clip
      (str_or p name (codes "tool")
        ++ codes "("
        ++ rendered_args p (parsed_args p args)
        ++ codes ")")
      work_call_chars

-- `usage.get(k, usage.get(j))`
unfoldable pub get_either : Text → Text → Fields → Value
get_either k j d = or_else (field_get k d) (get_or_null j d)

-- `int(v or 0)`
unfoldable pub int_or_zero : Python → Value → Option ℤ
int_or_zero p v = if truthy v then p.int_of v else some (pos 0)

unfoldable pub is_null : Value → Bool
is_null null = true
is_null _ = false

unfoldable pub tokens_of : Python → Value → Value → Option (Option (ℤ × ℤ))
tokens_of p inp out =
    let counted = int_or_zero p inp >>= λ i. int_or_zero p out >>= λ o. some (some (i, o)) in
    if is_null inp && is_null out then some none else counted

-- The outer `none` is an exception, the inner one `None`.
unfoldable pub tokens_in : Python → Value → Option (Option (ℤ × ℤ))
tokens_in p (obj d) =
    tokens_of p (get_either (codes "input") (codes "input_tokens") d)
      (get_either (codes "output") (codes "output_tokens") d)
tokens_in p _ = some none

-- A frame of the work log, of the lead or of the subagent of a task.
unfoldable pub log_frame : Text → Option Text → Text → ActivityFrame
log_frame kind task_id description = record (frame_of kind) {
  task_id = task_id;
  description = some (str description);
}

unfoldable pub text_frames : Option Text → Text → List ActivityFrame
text_frames task_id [] = []
text_frames task_id (c ∷ t) = log_frame (codes "text") task_id (clip (c ∷ t) work_text_chars) ∷ []

unfoldable pub call_frames : Python → Option Text → List Fields → List ActivityFrame
call_frames p task_id [] = []
call_frames p task_id (c ∷ cs) =
    log_frame (codes "tool_call") task_id
      (call_line p (get_or_null (codes "name") c) (get_or_null (codes "args") c))
    ∷ call_frames p task_id cs

unfoldable pub result_frames : Python → Option Text → Option (Value × Value) → List ActivityFrame
result_frames p task_id none = []
result_frames p task_id (some (name, out)) =
    log_frame (codes "tool_result") task_id
      (str_or p name (codes "tool") ++ codes ": " ++ clip (str_or p out []) work_result_chars)
    ∷ []

-- The tokens go to the first frame of the message, or to an empty one.
unfoldable pub with_tokens : Option Text → Option (ℤ × ℤ) → List ActivityFrame → List ActivityFrame
with_tokens task_id none frames = frames
with_tokens task_id (some t) [] =
    record (log_frame (codes "text") task_id []) { tokens = some t } ∷ []
with_tokens task_id (some t) (f ∷ fs) = record f { tokens = some t } ∷ fs

-- `[c for c in v or []]`, of which each must be a dictionary; `none` is the exception.
unfoldable pub fields_of : Values → Option (List Fields)
fields_of nil = some []
fields_of (cons (obj d) vs) = fields_of vs >>= λ ds. some (d ∷ ds)
fields_of (cons _ vs) = none

unfoldable pub listed_calls : Value → Option (List Fields)
listed_calls (arr vs) = fields_of vs
listed_calls _ = none

unfoldable pub calls_of : Value → Option (List Fields)
calls_of v = if truthy v then listed_calls v else some []

unfoldable pub work :
    Python
    → Option Text
    → Value
    → Value
    → Option (Value × Value)
    → Value
    → Option (List ActivityFrame)
work p task_id text calls result usage = do
  cs ← calls_of calls
  tokens ← tokens_in p usage
  some (
      with_tokens task_id tokens (
        text_frames task_id (strip (message_text p.str_of text))
        ++ (call_frames p task_id cs ++ result_frames p task_id result)))
