-- ===== src/Subagents/Ledger/Citing.antt =====
-- The ledger that is read back from a turn of the model.
use git_agent.Base.{
  codes, Option, none, some, List, [], ◌∷◌, ◌≡◌, refl, ap, ◌∙◌, ℕ, ◌+◌, ◌≤◌, arith, ==-iff_eq,
  nat_eq, list_eq, list_beq, if_true, or_else,
}
use git_agent.Value.{arr, obj, field_get}
use git_agent.Subagents.Citations.{ToolReceipt, receipt_id, receipt_of, text_field, int_field}
use git_agent.Subagents.Ledger.{
  position_of, position_of, ledger_entry, entry_id, receipt_fields, receipt_values, ledger_from,
  ledger_of,
}
use git_agent.Subagents.Ledger.Digits.{position_of-receipt_id}

-- The ids are those of the positions from `n` on.
abbrev pub NumberedFrom : ℕ → List ToolReceipt → Type 0
NumberedFrom n [] = Unit
NumberedFrom n (r ∷ rs) = (r.id ≡ receipt_id n) × NumberedFrom (n + 1) rs

receipt_of-fields : (r : ToolReceipt) → receipt_of r.id (receipt_fields r) ≡ some r
unfolding receipt_of receipt_fields codes field_get text_field int_field list_beq
receipt_of-fields r = refl

entry_id-fields : (r : ToolReceipt) → entry_id (obj (receipt_fields r)) ≡ some r.id
unfolding entry_id receipt_fields field_get text_field codes list_beq
entry_id-fields r = refl

ledger_entry-fields :
    (n : ℕ) (r : ToolReceipt)
    → r.id ≡ receipt_id n
    → ledger_entry n r.id (obj (receipt_fields r)) ≡ some r
unfolding ledger_entry
ledger_entry-fields n r h =
    if_true _ _ _ ((==-iff_eq r.id (receipt_id n)).1 h) ∙ receipt_of-fields r

-- The loop has seen the first position, or is at it.
abbrev StartsAt : ℕ → Option ℕ → ℕ → Type 0
StartsAt n none index = index ≡ 0
StartsAt n (some start) index = start + index ≡ n

start_lem : (n index : ℕ) (first : Option ℕ) → StartsAt n first index → or_else first n + index ≡ n
start_lem n index none h = omega (arith, h)
start_lem n index (some start) h = h

ledger_from-values :
    (n index : ℕ) (first : Option ℕ) (rs : List ToolReceipt)
    → 1 ≤ n
    → StartsAt n first index
    → NumberedFrom n rs
    → ledger_from first index (receipt_values rs) ≡ some rs
unfolding ledger_from receipt_values
ledger_from-values n index first [] p h hs = refl
ledger_from-values n index first (r ∷ rs) p h hs =
    let at = start_lem n index first h in
    let position : position_of r.id ≡ some n = ap position_of hs.0 ∙ position_of-receipt_id n p in
    rw (
      entry_id-fields r,
      position,
      at,
      ledger_entry-fields n r hs.0,
      ledger_from-values (n + 1) (index + 1) (some (or_else first n)) rs (omega arith)
          (omega (arith, at)) hs.1,
    )

-- A ledger of receipts whose ids go on from one position is read back as it was written.
pub ledger_of-values :
    (n : ℕ) (rs : List ToolReceipt)
    → 1 ≤ n
    → NumberedFrom n rs
    → ledger_of (arr (receipt_values rs)) ≡ some rs
unfolding ledger_of
ledger_of-values n rs p h = ledger_from-values n 0 none rs p refl h
