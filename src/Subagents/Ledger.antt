-- ===== src/Subagents/Ledger.antt =====
-- core/subagents/receipts.py: the ledger that is rendered for the model, and the snapshot of it that
-- is read back from a turn.
pub mod Budget
pub mod Snapshot
pub mod Digits
pub mod Citing
use git_agent.Base.{
  Text, codes, Bool, true, false, Option, none, some, List, [], ◌∷◌, ◌++◌, ℕ, zero, suc, ◌+◌, ◌-◌,
  ◌*◌, ◌&&◌, if◌then◌else◌, leb, ltb, length, is_nil, all_by, show, map, reverse, join, take, drop,
  ℤ, pos, negsuc, nat_eq, list_eq, ◌==◌, HasEq, ◌>>=◌, or_else,
}
use git_agent.Value.{
  Value, Values, Fields, null, bool, int, str, arr, obj, other, nil, cons, field, end, field_get,
}
use git_agent.Message.{Message, ai, tool, human, system}
use git_agent.Subagents.Citations.{ToolReceipt, receipt_id, receipt_of, text_field}

unfoldable pub tool_receipt_ledger_key : Text
tool_receipt_ledger_key = codes "tool_receipt_ledger"

abbrev pub render_char_budget : ℕ
render_char_budget = 2000

abbrev pub newline : Text
newline = 10 ∷ []

-- `f"[{rid} {tool_name}]" if tool_name else f"[{rid}]"`
unfoldable pub format_citation : Text → Option Text → Text
format_citation rid none = codes "[" ++ rid ++ codes "]"
format_citation rid (some []) = codes "[" ++ rid ++ codes "]"
format_citation rid (some (c ∷ name)) = codes "[" ++ rid ++ codes " " ++ (c ∷ name) ++ codes "]"

-- `str(n)` of a signed integer
unfoldable pub show_int : ℤ → Text
show_int (pos n) = show n
show_int (negsuc n) = codes "-" ++ show (n + 1)

unfoldable pub receipt_line : ToolReceipt → Text
receipt_line r =
    codes "- ["
    ++ r.id
    ++ codes "] "
    ++ r.tool_name
    ++ codes " status="
    ++ r.status
    ++ codes " args_sha256="
    ++ r.args_sha256
    ++ codes " output_sha256="
    ++ r.output_sha256
    ++ codes " bytes="
    ++ show_int r.output_bytes

unfoldable pub ledger_head : List Text
ledger_head =
    codes "## Tool receipts (execution record)"
    ∷ (codes "Cite receipt ids (e.g. "
        ++ format_citation (receipt_id 1) (some (codes "sandbox_run"))
        ++ codes ") in your final report for every claim about an action you took.")
    ∷ codes
        "Execution evidence only — receipts record that a call happened and its status; they do not validate claim correctness or task acceptance."
    ∷ []

unfoldable pub omission : Text
omission = codes "- ... older receipts omitted (context budget)"

-- The loop over `reversed(receipt_lines)`, with the lines kept so far.
unfoldable pub keep_lines : ℕ → List Text → List Text → List Text
keep_lines max_chars [] kept = kept
keep_lines max_chars (line ∷ older) kept =
    let more = keep_lines max_chars older (line ∷ kept) in
    if ltb max_chars (length (join newline (ledger_head ++ (omission ∷ line ∷ kept))))
    then kept
    else more

-- `receipts[-kept:] if kept else []`
unfoldable pub last_receipts : ℕ → List ToolReceipt → List ToolReceipt
last_receipts kept receipts = drop (length receipts - kept) receipts

-- The lines below the head, and the receipts that they are of.
unfoldable pub select_lines : ℕ → List ToolReceipt → List Text × List ToolReceipt
select_lines max_chars receipts =
    let lines = map receipt_line receipts in
    let kept = keep_lines max_chars (reverse lines) [] in
    if leb (length (join newline (ledger_head ++ lines))) max_chars
    then (lines, receipts)
    else (omission ∷ kept, last_receipts (length kept) receipts)

-- The last cut, if not even the head fits.
unfoldable pub cut_rendered : ℕ → Text → List ToolReceipt → Text × List ToolReceipt
cut_rendered max_chars rendered retained =
    if ltb max_chars (length rendered)
    then (take (max_chars - 4) rendered ++ (newline ++ codes "..."), [])
    else (rendered, retained)

unfoldable pub render_tool_receipts_with_snapshot : ℕ → List ToolReceipt → Text × List ToolReceipt
render_tool_receipts_with_snapshot max_chars [] = ([], [])
render_tool_receipts_with_snapshot max_chars (r ∷ rs) =
    let (lines, retained) = select_lines max_chars (r ∷ rs) in
    cut_rendered max_chars (join newline (ledger_head ++ lines)) retained

-- A character of `\d`. Python's takes the digits of other scripts too; an id with one of them is
-- refused here by the match and there by the comparison with the expected id.
unfoldable pub is_digit : ℕ → Bool
is_digit c = leb 48 c && leb c 57

-- `int(digits)`, with the value of the digits so far
unfoldable pub number_from : ℕ → Text → ℕ
number_from n [] = n
number_from n (c ∷ s) = number_from (n * 10 + (c - 48)) s

-- The group of `r([1-9]\d*)` in a full match, as a number.
unfoldable pub position_of : Text → Option ℕ
position_of [] = none
position_of (p ∷ []) = none
position_of (p ∷ c ∷ s) =
    if (p == 114) && leb 49 c && leb c 57 && all_by is_digit s
    then some (number_from 0 (c ∷ s))
    else none

-- One entry of the ledger; `first` is the position of the first one.
unfoldable pub ledger_entry : ℕ → Text → Value → Option ToolReceipt
ledger_entry expected rid (obj d) = if rid == receipt_id expected then receipt_of rid d else none
ledger_entry expected rid _ = none

-- `receipt.get("id")` of an entry
unfoldable pub entry_id : Value → Option Text
entry_id (obj d) = text_field (field_get (codes "id") d)
entry_id _ = none

-- The loop, with `first_position` and the index; `none` is its `return None`.
unfoldable pub ledger_from : Option ℕ → ℕ → Values → Option (List ToolReceipt)
ledger_from first index nil = some []
ledger_from first index (cons v vs) = do
  rid ← entry_id v
  position ← position_of rid
  let start : ℕ = or_else first position
  receipt ← ledger_entry (start + index) rid v
  rest ← ledger_from (some start) (index + 1) vs
  some (receipt ∷ rest)

unfoldable pub ledger_of : Value → Option (List ToolReceipt)
ledger_of (arr vs) = ledger_from none 0 vs
ledger_of _ = none

-- `raw is None` goes on with the message before.
unfoldable pub citing_raw : Option Value → Option (List ToolReceipt) → Option (List ToolReceipt)
citing_raw none earlier = earlier
citing_raw (some null) earlier = earlier
citing_raw (some v) earlier = ledger_of v

-- The loop over `reversed(messages)`.
unfoldable pub citing_from : List Message → Option (List ToolReceipt)
citing_from [] = none
citing_from (ai m ∷ ms) =
    citing_raw (field_get tool_receipt_ledger_key m.additional_kwargs) (citing_from ms)
citing_from (m ∷ ms) = citing_from ms

unfoldable pub extract_citing_turn_receipts : List Message → Option (List ToolReceipt)
extract_citing_turn_receipts messages = citing_from (reverse messages)

-- `dict(r)`
unfoldable pub receipt_fields : ToolReceipt → Fields
receipt_fields r = field (codes "id") (str r.id) (
    field (codes "tool_call_id") (str r.tool_call_id) (
      field (codes "tool_name") (str r.tool_name) (
        field (codes "status") (str r.status) (
          field (codes "args_sha256") (str r.args_sha256) (
            field (codes "output_sha256") (str r.output_sha256) (
              field (codes "created_at") (str r.created_at)
                (field (codes "output_bytes") (int r.output_bytes) end)))))))

-- `[dict(r) for r in snapshot]`
unfoldable pub receipt_values : List ToolReceipt → Values
receipt_values [] = nil
receipt_values (r ∷ rs) = cons (obj (receipt_fields r)) (receipt_values rs)
