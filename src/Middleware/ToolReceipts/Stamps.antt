-- ===== src/Middleware/ToolReceipts/Stamps.antt =====
-- The receipts that the stamps of tool results become.
use git_agent.Base.{
  Text, codes, Option, none, some, List, [], ◌∷◌, ◌++◌, ◌≡◌, refl, ap, ap₂, ◌∙◌, ℕ, ◌+◌, arith,
  length, pos, or_else, nat_eq, list_eq, list_beq, ==_refl, if_true,
}
use git_agent.Value.{obj, field_get, field_get-put}
use git_agent.Message.{ToolCall, Message, ToolMessage, tool}
use git_agent.Subagents.Citations.{
  ToolReceipt, tool_receipt_key, keep_found, receipt_id, receipt_of, stamp_of, receipt_in,
  receipts_from, extract_tool_receipts, text_field, int_field,
}
use git_agent.Middleware.ToolReceipts.{
  Env, short_hash, output_text, status_or_success, make_tool_receipt, ToolResult, message,
  stamp_message, stamp, wrap_tool_call,
}

keep_found-append :
    (n : ℕ) (o : Option ToolReceipt) (xs ys : List ToolReceipt) (ms : List Message)
    → keep_found o
        (xs ++ receipts_from (n + length xs) ms)
        (ys ++ receipts_from (n + 1 + length ys) ms)
      ≡ keep_found o xs ys ++ receipts_from (n + length (keep_found o xs ys)) ms
keep_found-append n none xs ys ms = refl
keep_found-append n (some r) xs ys ms = ap (λ k. r ∷ (ys ++ receipts_from k ms)) (omega arith)

receipts_from-append :
    (n : ℕ) (ms ms' : List Message)
    → receipts_from n (ms ++ ms')
      ≡ receipts_from n ms ++ receipts_from (n + length (receipts_from n ms)) ms'
unfolding receipts_from
receipts_from-append n [] ms' = ap (λ k. receipts_from k ms') (omega arith)
receipts_from-append n (m ∷ ms) ms' =
    ap₂ (keep_found (receipt_in (receipt_id (n + 1)) m)) (receipts_from-append n ms ms')
      (receipts_from-append (n + 1) ms ms')
    ∙ keep_found-append n _ _ _ ms'

-- What the receipt of a call says.
abbrev pub receipt_for : Env → ToolCall → ToolMessage → Text → ToolReceipt
receipt_for e call m rid = record {
  id = rid;
  tool_call_id = or_else call.id [];
  tool_name = call.name;
  status = status_or_success m.status;
  args_sha256 = short_hash e (e.encode (e.dumps (obj call.args)));
  output_sha256 = short_hash e (e.encode (output_text e m.content));
  output_bytes = pos (length (e.encode (output_text e m.content)));
  created_at = e.now;
}

receipt_of-make_tool_receipt :
    (e : Env) (call : ToolCall) (m : ToolMessage) (rid : Text)
    → receipt_of rid (make_tool_receipt e call m) ≡ some (receipt_for e call m rid)
unfolding receipt_of make_tool_receipt field_get text_field int_field codes list_beq
receipt_of-make_tool_receipt e call m rid = refl

pub receipt_in-stamp_message :
    (e : Env) (call : ToolCall) (m : ToolMessage) (rid : Text)
    → receipt_in rid (tool (stamp_message e call m)) ≡ some (receipt_for e call m rid)
unfolding receipt_in stamp_message stamp_of
receipt_in-stamp_message e call m rid =
    ap (stamp_of rid) (
      field_get-put tool_receipt_key tool_receipt_key (obj (make_tool_receipt e call m))
        m.additional_kwargs
      ∙ if_true _ _ _ (==_refl tool_receipt_key))
    ∙ receipt_of-make_tool_receipt e call m rid

one_receipt :
    (m : Message) (f : Text → ToolReceipt) (n : ℕ)
    → ((rid : Text) → receipt_in rid m ≡ some (f rid))
    → receipts_from n (m ∷ []) ≡ f (receipt_id (n + 1)) ∷ []
unfolding receipts_from
one_receipt m f n h = rw (h (receipt_id (n + 1)))

pub extract_tool_receipts-append_one :
    (messages : List Message) (m : Message) (f : Text → ToolReceipt)
    → ((rid : Text) → receipt_in rid m ≡ some (f rid))
    → extract_tool_receipts (messages ++ (m ∷ []))
      ≡ extract_tool_receipts messages
        ++ (f (receipt_id (length (extract_tool_receipts messages) + 1)) ∷ [])
unfolding extract_tool_receipts
extract_tool_receipts-append_one messages m f h =
    receipts_from-append 0 messages (m ∷ [])
    ∙ ap (λ rs. receipts_from 0 messages ++ rs) (one_receipt m f _ h)
    ∙ ap (λ k. receipts_from 0 messages ++ (f (receipt_id k) ∷ [])) (omega arith)

-- A tool call whose handler answers with a message adds exactly one receipt to those of the
-- conversation, whatever metadata the handler set: it has the next id, the name and the id of the
-- call, the status of the message, and the hashes of the arguments and the output.
pub extract_tool_receipts-wrap_tool_call :
    (e : Env) (handler : ToolCall → ToolResult) (call : ToolCall) (messages : List Message)
    (m : ToolMessage)
    → handler call ≡ message m
    → (stamped : ToolMessage) × (wrap_tool_call e handler call ≡ message stamped)
      × (extract_tool_receipts (messages ++ (tool stamped ∷ []))
          ≡ extract_tool_receipts messages
            ++ (receipt_for e call m (receipt_id (length (extract_tool_receipts messages) + 1))
                ∷ []))
unfolding wrap_tool_call stamp
extract_tool_receipts-wrap_tool_call e handler call messages m h = (
  stamp_message e call m,
  ap (stamp e call) h,
  extract_tool_receipts-append_one messages (tool (stamp_message e call m)) (receipt_for e call m)
      (receipt_in-stamp_message e call m),
)
