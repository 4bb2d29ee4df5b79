-- ===== src/Middleware/ToolErrors/Chain.antt =====
-- The receipt of a tool call that raised.
use git_agent.Base.{
  Text, codes, Bool, true, false, Option, some, List, [], ◌∷◌, ◌++◌, ◌≡◌, refl, ap, ◌∙◌, ℕ, zero,
  suc, ◌+◌, length, Dict, get, put, get-put, not, contains, nat_eq, list_eq, list_beq, ==_refl,
  if_true, if◌then◌else◌, ◌==◌,
}
use git_agent.Value.{Value, null, bool, int, str, arr, obj, other, field_get-put}
use git_agent.Message.{ToolCall, Message, ToolMessage, tool}
use git_agent.Subagents.Citations.{
  ToolReceipt, fails, tool_receipt_key, receipt_id, stamp_of, receipt_in, extract_tool_receipts,
  index_from, judge, judge_receipt, judge_found,
}
use git_agent.Middleware.ToolReceipts.{
  Env, status_or_success, ToolResult, message, stamp, stamp_message,
}
use git_agent.Middleware.ToolReceipts.Stamps.{
  receipt_for, receipt_in-stamp_message, extract_tool_receipts-append_one,
}
use git_agent.Middleware.Sanitization.{
  Chars, sanitized_key, default_untrusted_tools, neutralize_framework_tags, clean_message,
  sanitize_content, sanitize_message, sanitize_result, sanitize,
}
use git_agent.Middleware.ToolErrors.{
  Ending, returns, raises, to_error_message, handled, wrap_tool_call, on_return, subagent_call,
}

receipt_in-clean_message :
    (rid : Text) (m : ToolMessage) (r : Text × ℕ)
    → receipt_in rid (tool (clean_message m r)) ≡ receipt_in rid (tool m)
unfolding receipt_in clean_message tool_receipt_key sanitized_key codes list_beq
receipt_in-clean_message rid m (cleaned, zero) = refl
receipt_in-clean_message rid m (cleaned, suc hits) =
    ap (stamp_of rid) (field_get-put sanitized_key tool_receipt_key (bool true) m.additional_kwargs)

receipt_in-sanitize_content :
    (k : Chars) (rid : Text) (m : ToolMessage) (v : Value)
    → receipt_in rid (tool (sanitize_content k m v)) ≡ receipt_in rid (tool m)
unfolding sanitize_content
receipt_in-sanitize_content k rid m (str s) =
    receipt_in-clean_message rid m (neutralize_framework_tags k s)
receipt_in-sanitize_content k rid m null = refl
receipt_in-sanitize_content k rid m (bool b) = refl
receipt_in-sanitize_content k rid m (int n) = refl
receipt_in-sanitize_content k rid m (arr vs) = refl
receipt_in-sanitize_content k rid m (obj d) = refl
receipt_in-sanitize_content k rid m (other s) = refl

-- `n` has the receipt of `m`.
abbrev SameReceipt : ToolMessage → ToolMessage → Type 0
SameReceipt m n = (rid : Text) → receipt_in rid (tool n) ≡ receipt_in rid (tool m)

either-SameReceipt :
    (b : Bool) (m : ToolMessage) (x y : ToolResult)
    → ((n : ToolMessage) × (x ≡ message n) × SameReceipt m n)
    → ((n : ToolMessage) × (y ≡ message n) × SameReceipt m n)
    → (n : ToolMessage) × ((if b then x else y) ≡ message n) × SameReceipt m n
either-SameReceipt true m x y hx hy = hx
either-SameReceipt false m x y hx hy = hy

sanitize-SameReceipt :
    (k : Chars) (untrusted : List Text) (call : ToolCall) (m : ToolMessage)
    → (n : ToolMessage) × (sanitize k untrusted call (message m) ≡ message n) × SameReceipt m n
unfolding sanitize sanitize_result sanitize_message
sanitize-SameReceipt k untrusted call m =
    either-SameReceipt (not (contains call.name untrusted)) m _ _ (m, refl, λ rid. refl)
      (sanitize_content k m m.content, refl, λ rid. receipt_in-sanitize_content k rid m m.content)

get-index_from :
    (d : Dict Text ToolReceipt) (rs : List ToolReceipt) (r : ToolReceipt)
    → get r.id (index_from d (rs ++ (r ∷ []))) ≡ some r
unfolding index_from
get-index_from d [] r = get-put r.id r.id r d ∙ if_true _ _ _ (==_refl r.id)
get-index_from d (q ∷ rs) r = get-index_from (put q.id q d) rs r

error_is_no_success : not (codes "error" == codes "success") ≡ true
unfolding codes list_beq
error_is_no_success = refl

judge_found-failed :
    (rid : Text) (anchor : Option Text) (r : ToolReceipt)
    → r.status ≡ codes "error"
    → judge_found rid anchor r ≡ fails (codes "receipt status=" ++ codes "error")
unfolding judge_found
judge_found-failed rid anchor r h =
    if_true _ _ _ (ap (λ s. not (s == codes "success")) h ∙ error_is_no_success)
    ∙ ap (λ s. fails (codes "receipt status=" ++ s)) h

-- The receipt with the status `error` refutes every citation of it.
judge-error :
    (rs : List ToolReceipt) (r : ToolReceipt) (anchor : Option Text)
    → r.status ≡ codes "error"
    → judge (index_from [] (rs ++ (r ∷ []))) (r.id, anchor)
      ≡ fails (codes "receipt status=" ++ codes "error")
unfolding judge judge_receipt
judge-error rs r anchor h =
    ap (judge_receipt r.id anchor) (get-index_from [] rs r) ∙ judge_found-failed r.id anchor r h

status_lem :
    (e : Env) (call : ToolCall) (exc_type exc rid : Text)
    → (receipt_for e call (to_error_message call exc_type exc) rid).status ≡ codes "error"
unfolding to_error_message status_or_success codes
status_lem e call exc_type exc rid = refl

-- A tool of a subagent that raises an exception is answered by a message, for which the conversation
-- gets one more receipt; a report that cites its id, with a tool name or without, is told that the
-- citation failed.
pub judge-subagent_call :
    (e : Env) (k : Chars) (handler : ToolCall → Ending) (call : ToolCall) (exc_type exc : Text)
    (messages : List Message) (anchor : Option Text)
    → handler call ≡ raises exc_type exc
    → (m : ToolMessage) × (subagent_call e k handler call ≡ returns (message m))
      × (judge
            (index_from [] (extract_tool_receipts (messages ++ (tool m ∷ []))))
            (receipt_id (length (extract_tool_receipts messages) + 1), anchor)
          ≡ fails (codes "receipt status=" ++ codes "error"))
unfolding subagent_call wrap_tool_call on_return handled stamp
judge-subagent_call e k handler call exc_type exc messages anchor h =
    let error = to_error_message call exc_type exc in
    let (n, e1, same) =
      sanitize-SameReceipt k default_untrusted_tools call (stamp_message e call error) in
    let rs = extract_tool_receipts messages in
    let recorded =
      extract_tool_receipts-append_one messages (tool n) (receipt_for e call error)
        (λ rid. same rid ∙ receipt_in-stamp_message e call error rid) in
    (
      n,
      ap
            (λ o.
              on_return (sanitize k default_untrusted_tools call)
                (on_return (stamp e call) (handled call o)))
            h
          ∙ ap returns e1,
      ap (λ q. judge (index_from [] q) (receipt_id (length rs + 1), anchor)) recorded
          ∙ judge-error rs (receipt_for e call error (receipt_id (length rs + 1))) anchor
              (status_lem e call exc_type exc (receipt_id (length rs + 1))),
    )
