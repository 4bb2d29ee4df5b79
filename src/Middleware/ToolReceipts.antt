-- ===== src/Middleware/ToolReceipts.antt =====
-- core/middleware/tool_receipts.py: a receipt for every tool result, and the ledger of receipts in
-- every call of the model.
pub mod Stamps
pub mod Turns
use git_agent.Base.{
  Text, codes, Bool, true, false, Option, none, some, List, [], ◌∷◌, ℕ, length, take, is_nil, pos,
  if◌then◌else◌, nat_eq, list_eq, option_eq, ◌==◌, HasEq, or_else, any_by,
}
use git_agent.Value.{Value, Fields, null, bool, int, str, arr, obj, other, field, end, field_put}
use git_agent.Message.{ToolCall, Message, ToolMessage, ai, tool, human, system}
use git_agent.Subagents.Citations.{ToolReceipt, tool_receipt_key, extract_tool_receipts}
use git_agent.Subagents.Ledger.{
  tool_receipt_ledger_key, render_char_budget, render_tool_receipts_with_snapshot, receipt_values,
}

-- `json.dumps` with sorted keys, UTF-8, the SHA-256 in hexadecimal, and the time of the call.
pub record Env : Type 0 where
  pub dumps : Value → Text
  pub encode : Text → List ℕ
  pub sha256 : List ℕ → Text
  pub now : Text

abbrev pub hash_len : ℕ
hash_len = 16

unfoldable pub short_hash : Env → List ℕ → Text
short_hash e bytes = take hash_len (e.sha256 bytes)

-- `message.content if isinstance(message.content, str) else json.dumps(message.content, …)`
unfoldable pub output_text : Env → Value → Text
output_text e (str s) = s
output_text e v = e.dumps v

-- `status or "success"`
unfoldable pub status_or_success : Text → Text
status_or_success [] = codes "success"
status_or_success (c ∷ s) = c ∷ s

unfoldable pub make_tool_receipt : Env → ToolCall → ToolMessage → Fields
make_tool_receipt e call message =
    let output = e.encode (output_text e message.content) in
    field (codes "tool_call_id") (str (or_else call.id [])) (
      field (codes "tool_name") (str call.name) (
        field (codes "status") (str (status_or_success message.status)) (
          field (codes "args_sha256") (str (short_hash e (e.encode (e.dumps (obj call.args))))) (
            field (codes "output_sha256") (str (short_hash e output)) (
              field (codes "output_bytes") (int (pos (length output)))
                (field (codes "created_at") (str e.now) end))))))

-- What the handler of a tool call returns: a message, a `Command` with messages, or anything else.
pub data ToolResult : Type 0 where
  message : ToolMessage → ToolResult
  command : List Message → ToolResult
  nothing : ToolResult

unfoldable pub stamp_message : Env → ToolCall → ToolMessage → ToolMessage
stamp_message e call m = record m {
  additional_kwargs =
      field_put tool_receipt_key (obj (make_tool_receipt e call m)) m.additional_kwargs;
}

unfoldable pub stamp_own : Env → ToolCall → Message → Message
stamp_own e call (tool m) =
    if m.tool_call_id == call.id then tool (stamp_message e call m) else tool m
stamp_own e call m = m

unfoldable pub stamp_update : Env → ToolCall → List Message → List Message
stamp_update e call [] = []
stamp_update e call (m ∷ ms) = stamp_own e call m ∷ stamp_update e call ms

unfoldable pub stamp : Env → ToolCall → ToolResult → ToolResult
stamp e call (message m) = message (stamp_message e call m)
stamp e call (command ms) = command (stamp_update e call ms)
stamp e call nothing = nothing

unfoldable pub wrap_tool_call : Env → (ToolCall → ToolResult) → ToolCall → ToolResult
wrap_tool_call e handler call = stamp e call (handler call)

-- `HumanMessage(content=rendered)`
unfoldable pub ledger_message : Text → Message
ledger_message rendered =
    human (record { id = none; content = str rendered; additional_kwargs = end })

-- `messages.insert(insert_at, …)`, after the system messages at the front
unfoldable pub insert_after_system : Message → List Message → List Message
insert_after_system m [] = m ∷ []
insert_after_system m (system s ∷ ms) = system s ∷ insert_after_system m ms
insert_after_system m (n ∷ ms) = m ∷ n ∷ ms

unfoldable pub inject_rendered :
    List Message → Text × List ToolReceipt → List Message × List ToolReceipt
inject_rendered messages r =
    if is_nil r.0 then (messages, []) else (insert_after_system (ledger_message r.0) messages, r.1)

-- The messages of the request, and the snapshot.
unfoldable pub inject_ledger : List Message → List Message × List ToolReceipt
inject_ledger messages =
    inject_rendered messages
      (render_tool_receipts_with_snapshot render_char_budget (extract_tool_receipts messages))

abbrev pub is_ai : Message → Bool
is_ai (ai m) = true
is_ai _ = false

unfoldable pub stamp_ledger : List ToolReceipt → Message → Message
stamp_ledger snapshot (ai m) = ai (record m {
  additional_kwargs =
      field_put tool_receipt_ledger_key (arr (receipt_values snapshot)) m.additional_kwargs;
})
stamp_ledger snapshot m = m

unfoldable pub stamp_all : List ToolReceipt → List Message → List Message
stamp_all snapshot [] = []
stamp_all snapshot (m ∷ ms) = stamp_ledger snapshot m ∷ stamp_all snapshot ms

unfoldable pub stamp_response : List Message → List ToolReceipt → List Message
stamp_response result [] = result
stamp_response result (r ∷ rs) = stamp_all (r ∷ rs) result

unfoldable pub wrap_model_call : (List Message → List Message) → List Message → List Message
wrap_model_call handler messages =
    let (request, snapshot) = inject_ledger messages in stamp_response (handler request) snapshot
