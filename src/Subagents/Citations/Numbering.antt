-- ===== src/Subagents/Citations/Numbering.antt =====
-- The display ids of the receipts.
use git_agent.Base.{
  Text, Option, none, some, List, [], ◌∷◌, ◌≡◌, refl, ap₂, ℕ, zero, suc, ◌+◌, length, map, arith,
}
use git_agent.Value.{Value, Fields, null, bool, int, str, arr, obj, other}
use git_agent.Message.{Message, ai, tool, human, system}
use git_agent.Subagents.Citations.{
  ToolReceipt, keep_found, receipt_id, receipt_of, stamp_of, receipt_in, receipts_from,
  extract_tool_receipts,
}

-- `r(n + 1), r(n + 2), …`, `k` of them
abbrev pub ids_from : ℕ → ℕ → List Text
ids_from n zero = []
ids_from n (suc k) = receipt_id (n + 1) ∷ ids_from (n + 1) k

id-receipt_of : (id : Text) (d : Fields) (r : ToolReceipt) → receipt_of id d ≡ some r → r.id ≡ id
unfolding receipt_of
id-receipt_of id d r h = ground arith

id-stamp_of : (id : Text) (o : Option Value) (r : ToolReceipt) → stamp_of id o ≡ some r → r.id ≡ id
unfolding stamp_of
id-stamp_of id none r h = cc
id-stamp_of id (some null) r h = cc
id-stamp_of id (some (bool b)) r h = cc
id-stamp_of id (some (int n)) r h = cc
id-stamp_of id (some (str s)) r h = cc
id-stamp_of id (some (arr vs)) r h = cc
id-stamp_of id (some (other s)) r h = cc
id-stamp_of id (some (obj d)) r h = id-receipt_of id d r h

id-receipt_in : (id : Text) (m : Message) (r : ToolReceipt) → receipt_in id m ≡ some r → r.id ≡ id
unfolding receipt_in
id-receipt_in id (tool m) r h = id-stamp_of id _ r h
id-receipt_in id (ai m) r h = cc
id-receipt_in id (human m) r h = cc
id-receipt_in id (system m) r h = cc

ids-keep_found :
    (n : ℕ) (o : Option ToolReceipt) (skipped found : List ToolReceipt)
    → ((r : ToolReceipt) → o ≡ some r → r.id ≡ receipt_id (n + 1))
    → map (λ r. r.id) skipped ≡ ids_from n (length skipped)
    → map (λ r. r.id) found ≡ ids_from (n + 1) (length found)
    → map (λ r. r.id) (keep_found o skipped found)
      ≡ ids_from n (length (keep_found o skipped found))
ids-keep_found n none skipped found h hs hf = hs
ids-keep_found n (some r) skipped found h hs hf = ap₂ (λ a as'. a ∷ as') (h r refl) hf

ids-receipts_from :
    (n : ℕ) (ms : List Message)
    → map (λ r. r.id) (receipts_from n ms) ≡ ids_from n (length (receipts_from n ms))
unfolding receipts_from
ids-receipts_from n [] = refl
ids-receipts_from n (m ∷ ms) =
    ids-keep_found n _ _ _ (id-receipt_in (receipt_id (n + 1)) m) (ids-receipts_from n ms)
      (ids-receipts_from (n + 1) ms)

-- The receipts of a conversation are numbered `r1`, `r2`, … without a gap, however many messages
-- have no valid stamp.
pub ids-extract_tool_receipts :
    (messages : List Message)
    → map (λ r. r.id) (extract_tool_receipts messages)
      ≡ ids_from 0 (length (extract_tool_receipts messages))
unfolding extract_tool_receipts
ids-extract_tool_receipts messages = ids-receipts_from 0 messages
