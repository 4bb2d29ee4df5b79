-- ===== src/Runner/Content.antt =====
-- core/runner/activity.py: the text of an AI message.
use git_agent.Base.{
  Text, codes, Bool, false, Option, some, [], ◌++◌, if◌then◌else◌, or_else, nat_eq, list_eq, ◌==◌,
}
use git_agent.Value.{Value, Values, nil, cons, str, arr, obj, field_get}

-- `isinstance(v, str) and v == t`
unfoldable pub is_str : Text → Option Value → Bool
is_str t (some (str s)) = s == t
is_str t _ = false

-- One block of the content: its `text` if its `type` says so. Python's `str` is the parameter.
unfoldable pub block_text : (Value → Text) → Value → Text
block_text str_value (obj b) =
    if is_str (codes "text") (field_get (codes "type") b)
    then str_value (or_else (field_get (codes "text") b) (str []))
    else []
block_text str_value _ = []

unfoldable pub blocks_text : (Value → Text) → Values → Text
blocks_text str_value nil = []
blocks_text str_value (cons b bs) = block_text str_value b ++ blocks_text str_value bs

unfoldable pub message_text : (Value → Text) → Value → Text
message_text str_value (str s) = s
message_text str_value (arr bs) = blocks_text str_value bs
message_text str_value _ = []
