-- ===== src/Middleware/ToolReceipts/Turns.antt =====
-- The turns of the model, with the ledger that each one sees.
use mathlib.Core.List.{reverse_aux, reverse_aux-append}
use git_agent.Base.{
  Text, Bool, true, false, some, List, [], ◌∷◌, ◌++◌, ◌≡◌, ◌⊎◌, inl, inr, refl, sym, ap, subst, ◌∙◌,
  ℕ, ◌+◌, ◌≤◌, arith, length, map, is_nil, if◌then◌else◌, true≢false, any_by, nat_eq, list_eq,
  ==_refl, if_true,
}
use git_agent.Value.{field_get-put}
use git_agent.Message.{Message, AiMessage, ai, tool, human, system}
use git_agent.Subagents.Citations.{ToolReceipt, extract_tool_receipts}
use git_agent.Subagents.Citations.Numbering.{ids_from, ids-extract_tool_receipts}
use git_agent.Subagents.Ledger.{
  tool_receipt_ledger_key, render_char_budget, render_tool_receipts_with_snapshot, citing_raw,
  citing_from, extract_citing_turn_receipts,
}
use git_agent.Subagents.Ledger.Citing.{NumberedFrom, ledger_of-values}
use git_agent.Subagents.Ledger.Snapshot.{render_tool_receipts_with_snapshot-Shows}
use git_agent.Middleware.ToolReceipts.{
  is_ai, stamp_ledger, stamp_all, stamp_response, inject_rendered, inject_ledger, wrap_model_call,
}

-- A final part of receipts that are numbered.
NumberedFrom-ids :
    (n : ℕ) (rs : List ToolReceipt)
    → map (λ r. r.id) rs ≡ ids_from n (length rs)
    → NumberedFrom (n + 1) rs
NumberedFrom-ids n [] h = tt
NumberedFrom-ids n (r ∷ rs) h = (cc, NumberedFrom-ids (n + 1) rs cc)

NumberedFrom-append :
    (n : ℕ) (older kept : List ToolReceipt)
    → NumberedFrom n (older ++ kept)
    → NumberedFrom (n + length older) kept
NumberedFrom-append n [] kept h = subst (λ k. NumberedFrom k kept) (omega arith) h
NumberedFrom-append n (r ∷ older) kept h =
    subst (λ k. NumberedFrom k kept) (omega arith) (NumberedFrom-append (n + 1) older kept h.1)

-- The snapshot that comes with a rendered ledger.
snapshot-NumberedFrom :
    (max_chars : ℕ) (messages : List Message)
    → let snapshot =
        (render_tool_receipts_with_snapshot max_chars (extract_tool_receipts messages)).1 in
      is_nil snapshot ≡ false → (n : ℕ) × (1 ≤ n) × NumberedFrom n snapshot
snapshot-NumberedFrom m messages h =
    let receipts = extract_tool_receipts messages in
    let numbered : NumberedFrom 1 receipts =
      NumberedFrom-ids 0 receipts (ids-extract_tool_receipts messages) in
    let (older, e, text) = render_tool_receipts_with_snapshot-Shows m receipts h in
    (
      1 + length older,
      omega arith,
      NumberedFrom-append 1 older _ (subst (NumberedFrom 1) e numbered),
    )

either-snapshot :
    (b : Bool) (x y : List Message × List ToolReceipt)
    → is_nil x.1 ≡ true
    → is_nil (if◌then◌else◌ {A = List Message × List ToolReceipt} b x y).1 ≡ false
    → (if◌then◌else◌ {A = List Message × List ToolReceipt} b x y).1 ≡ y.1
either-snapshot true x y e h = absurd (true≢false (sym e ∙ h))
either-snapshot false x y e h = refl

inject_rendered-snapshot :
    (messages : List Message) (r : Text × List ToolReceipt)
    → is_nil (inject_rendered messages r).1 ≡ false
    → (inject_rendered messages r).1 ≡ r.1
unfolding inject_rendered
inject_rendered-snapshot messages r h = either-snapshot (is_nil r.0) _ _ refl h

inject_ledger-NumberedFrom :
    (messages : List Message)
    → is_nil (inject_ledger messages).1 ≡ false
    → (n : ℕ) × (1 ≤ n) × NumberedFrom n (inject_ledger messages).1
unfolding inject_ledger
inject_ledger-NumberedFrom messages h =
    let same = inject_rendered-snapshot messages _ h in
    let (n, p, numbered) =
      snapshot-NumberedFrom render_char_budget messages (ap is_nil (sym same) ∙ h) in
    (n, p, subst (NumberedFrom n) (sym same) numbered)

stamp_response-all :
    (snapshot : List ToolReceipt) (result : List Message)
    → is_nil snapshot ≡ false
    → stamp_response result snapshot ≡ stamp_all snapshot result
unfolding stamp_response
stamp_response-all [] result h = absurd (true≢false h)
stamp_response-all (r ∷ rs) result h = refl

module _ (snapshot : List ToolReceipt) (n : ℕ) (p : 1 ≤ n) (h : NumberedFrom n snapshot) where
  read_stamp :
      (m : AiMessage) (ms : List Message)
      → citing_from (stamp_ledger snapshot (ai m) ∷ ms) ≡ some snapshot
  unfolding citing_from stamp_ledger citing_raw
  read_stamp m ms =
      ap (λ o. citing_raw o (citing_from ms))
        (field_get-put tool_receipt_ledger_key tool_receipt_ledger_key _ m.additional_kwargs
          ∙ if_true _ _ _ (==_refl tool_receipt_ledger_key))
      ∙ ledger_of-values n snapshot p h

  citing_from-stamp_all :
      (ms acc : List Message)
      → (any_by is_ai ms ≡ true) ⊎ (citing_from acc ≡ some snapshot)
      → citing_from (reverse_aux (stamp_all snapshot ms) acc) ≡ some snapshot
  unfolding stamp_all citing_from stamp_ledger
  citing_from-stamp_all [] acc (inl e) = absurd (true≢false (sym e))
  citing_from-stamp_all [] acc (inr e) = e
  citing_from-stamp_all (ai m ∷ ms) acc e = citing_from-stamp_all ms _ (inr (read_stamp m acc))
  citing_from-stamp_all (tool m ∷ ms) acc e = citing_from-stamp_all ms (tool m ∷ acc) e
  citing_from-stamp_all (human m ∷ ms) acc e = citing_from-stamp_all ms (human m ∷ acc) e
  citing_from-stamp_all (system m ∷ ms) acc e = citing_from-stamp_all ms (system m ∷ acc) e

  citing-stamp_response :
      (messages result : List Message)
      → is_nil snapshot ≡ false
      → any_by is_ai result ≡ true
      → extract_citing_turn_receipts (messages ++ stamp_response result snapshot) ≡ some snapshot
  unfolding extract_citing_turn_receipts
  citing-stamp_response messages result ne e =
      ap (λ ms. extract_citing_turn_receipts (messages ++ ms))
        (stamp_response-all snapshot result ne)
      ∙ ap citing_from (reverse_aux-append messages (stamp_all snapshot result) [])
      ∙ citing_from-stamp_all result _ (inl e)

-- After a call of the model that was given a ledger, and that answers with an AI message among its
-- messages, the ledger that is read back from the conversation is the snapshot of that call, receipt
-- by receipt, whatever ledgers the conversation holds from before.
pub extract_citing_turn_receipts-wrap_model_call :
    (handler : List Message → List Message) (messages : List Message)
    → is_nil (inject_ledger messages).1 ≡ false
    → any_by is_ai (handler (inject_ledger messages).0) ≡ true
    → extract_citing_turn_receipts (messages ++ wrap_model_call handler messages)
      ≡ some (inject_ledger messages).1
unfolding wrap_model_call
extract_citing_turn_receipts-wrap_model_call handler messages h e =
    let (n, p, numbered) = inject_ledger-NumberedFrom messages h in
    citing-stamp_response (inject_ledger messages).1 n p numbered messages
      (handler (inject_ledger messages).0) h e
