-- ===== src/Subagents/Citations.antt =====
-- core/subagents/receipts.py: the receipts of the tool calls, and the check of a report's citations.
pub mod Verdict
pub mod Numbering
pub mod Parsing
use git_agent.Base.{
  Text, codes, Bool, true, false, Option, none, some, List, [], ◌∷◌, ◌++◌, ℕ, ◌+◌, ◌&&◌, ◌||◌, not,
  if◌then◌else◌, leb, ltb, length, contains, is_nil, is_some, strip, show, filter_by, map, Dict,
  get, put, ℤ, nat_eq, list_eq, option_eq, pair_eq, ◌==◌, HasEq, or_else, ◌>>=◌,
}
use git_agent.Value.{Value, Fields, int, str, obj, field_get}
use git_agent.Message.{Message, ToolMessage, ai, tool, human, system}

unfoldable pub tool_receipt_key : Text
tool_receipt_key = codes "tool_receipt"

abbrev pub max_receipt_id_digits : ℕ
max_receipt_id_digits = 10

pub record ToolReceipt : Type 0 where
  pub id : Text
  pub tool_call_id : Text
  pub tool_name : Text
  pub status : Text
  pub args_sha256 : Text
  pub output_sha256 : Text
  pub output_bytes : ℤ
  pub created_at : Text

unfoldable pub receipt_id : ℕ → Text
receipt_id position = codes "r" ++ show position

unfoldable pub text_field : Option Value → Option Text
text_field (some (str s)) = some s
text_field _ = none

unfoldable pub int_field : Option Value → Option ℤ
int_field (some (int n)) = some n
int_field _ = none

-- A receipt with the display id `id`, if all its fields are there and of their types.
unfoldable pub receipt_of : Text → Fields → Option ToolReceipt
receipt_of id d = do
  call ← text_field (field_get (codes "tool_call_id") d)
  name ← text_field (field_get (codes "tool_name") d)
  status ← text_field (field_get (codes "status") d)
  args ← text_field (field_get (codes "args_sha256") d)
  output ← text_field (field_get (codes "output_sha256") d)
  created ← text_field (field_get (codes "created_at") d)
  bytes ← int_field (field_get (codes "output_bytes") d)
  some (record {
    id = id;
    tool_call_id = call;
    tool_name = name;
    status = status;
    args_sha256 = args;
    output_sha256 = output;
    output_bytes = bytes;
    created_at = created;
  })

-- The stamp of a message.
unfoldable pub stamp_of : Text → Option Value → Option ToolReceipt
stamp_of id (some (obj d)) = receipt_of id d
stamp_of id _ = none

unfoldable pub receipt_in : Text → Message → Option ToolReceipt
receipt_in id (tool m) = stamp_of id (field_get tool_receipt_key m.additional_kwargs)
receipt_in id (ai m) = none
receipt_in id (human m) = none
receipt_in id (system m) = none

abbrev pub keep_found : Option ToolReceipt → List ToolReceipt → List ToolReceipt → List ToolReceipt
keep_found none skipped found = skipped
keep_found (some r) skipped found = r ∷ found

-- The loop, with `n` receipts found so far.
unfoldable pub receipts_from : ℕ → List Message → List ToolReceipt
receipts_from n [] = []
receipts_from n (m ∷ ms) =
    keep_found (receipt_in (receipt_id (n + 1)) m) (receipts_from n ms) (receipts_from (n + 1) ms)

unfoldable pub extract_tool_receipts : List Message → List ToolReceipt
extract_tool_receipts messages = receipts_from 0 messages

-- What the regular expressions find in a report, and Python's `int` of a run of digits.
pub record Matcher : Type 0 where
  -- the groups of `CITATION_RE.finditer`
  pub citations : Text → List (Text × Option Text)
  pub int_of : Text → ℕ
  -- `_has_action_claims`
  pub has_action_claims : Text → Bool

-- The loop of `parse_citations`, with the citations seen so far.
unfoldable pub parse_from :
    (Text → ℕ) → List (Text × Option Text) → List (Text × Option Text) → List (Text × Option Text)
parse_from int_of seen [] = []
parse_from int_of seen (m ∷ ms) =
    let citation : Text × Option Text = (receipt_id (int_of m.0), m.1) in
    let old = parse_from int_of seen ms in
    let new = parse_from int_of (citation ∷ seen) ms in
    if ltb max_receipt_id_digits (length m.0) || contains citation seen then old else citation ∷ new

unfoldable pub parse_citations : Matcher → Text → List (Text × Option Text)
parse_citations re text = parse_from re.int_of [] (re.citations text)

-- `{r["id"]: r for r in receipts}`
unfoldable pub index_from : Dict Text ToolReceipt → List ToolReceipt → Dict Text ToolReceipt
index_from d [] = d
index_from d (r ∷ rs) = index_from (put r.id r d) rs

pub data Judgement : Type 0 where
  resolves : Judgement
  unknown_id : Judgement
  fails : Text → Judgement

unfoldable pub judge_found : Text → Option Text → ToolReceipt → Judgement
judge_found rid anchor r =
    if not (r.status == codes "success")
    then fails (codes "receipt status=" ++ r.status)
    else (if is_some anchor && not (anchor == some r.tool_name)
        then fails (
            codes "anchor mismatch: cited as "
            ++ or_else anchor []
            ++ codes ", receipt "
            ++ rid
            ++ codes " is "
            ++ r.tool_name)
        else resolves)

unfoldable pub judge_receipt : Text → Option Text → Option ToolReceipt → Judgement
judge_receipt rid anchor none = unknown_id
judge_receipt rid anchor (some r) = judge_found rid anchor r

unfoldable pub judge : Dict Text ToolReceipt → Text × Option Text → Judgement
judge by_id c = judge_receipt c.0 c.1 (get c.0 by_id)

pub record ReceiptVerdict : Type 0 where
  pub citation_resolved : Bool
  pub cited : List Text
  pub resolved : List Text
  pub failed : List (Text × Text)
  pub unknown : List Text
  pub no_citation_claims : Bool

-- The lists of the loop.
pub record Sorted : Type 0 where
  pub resolved : List Text
  pub failed : List (Text × Text)
  pub unknown : List Text

unfoldable pub sort_one : Text → Judgement → Sorted → Sorted
sort_one rid resolves s = record {
  resolved = rid ∷ s.resolved;
  failed = s.failed;
  unknown = s.unknown;
}
sort_one rid unknown_id s = record {
  resolved = s.resolved;
  failed = s.failed;
  unknown = rid ∷ s.unknown;
}
sort_one rid (fails why) s = record {
  resolved = s.resolved;
  failed = (rid, why) ∷ s.failed;
  unknown = s.unknown;
}

unfoldable pub sort_citations : Dict Text ToolReceipt → List (Text × Option Text) → Sorted
sort_citations by_id [] = record { resolved = []; failed = []; unknown = [] }
sort_citations by_id (c ∷ cs) = sort_one c.0 (judge by_id c) (sort_citations by_id cs)

abbrev pub nontrivial_report_min_chars : ℕ
nontrivial_report_min_chars = 240

unfoldable pub verify_receipt_citations : Matcher → Text → List ToolReceipt → ReceiptVerdict
verify_receipt_citations re report receipts =
    let citations = parse_citations re report in
    let s = sort_citations (index_from [] receipts) citations in
    let claims =
      is_nil citations
      && (re.has_action_claims report
          || (not (is_nil receipts) && leb nontrivial_report_min_chars (length (strip report)))) in
    record {
      citation_resolved =
          if is_nil citations then not claims else is_nil s.failed && is_nil s.unknown;
      cited = map (λ c. c.0) citations;
      resolved = s.resolved;
      failed = s.failed;
      unknown = s.unknown;
      no_citation_claims = claims;
    }
