-- ===== src/Subagents/Ledger/Snapshot.antt =====
-- The snapshot of the rendered ledger.
use mathlib.Core.List.{reverse_aux, reverse_aux-eq, reverse-reverse}
use git_agent.Base.{
  Text, Bool, true, false, List, [], ◌∷◌, ◌++◌, ◌≡◌, ◌⊎◌, inl, inr, refl, sym, ap, subst, ◌∙◌, ℕ,
  suc, arith, ltb, leb, length, length-append, is_nil, drop, map, reverse, join, if◌then◌else◌,
  true≢false,
}
use git_agent.Subagents.Citations.{ToolReceipt}
use git_agent.Subagents.Ledger.{
  newline, receipt_line, ledger_head, omission, keep_lines, last_receipts, select_lines,
  cut_rendered, render_tool_receipts_with_snapshot,
}

-- `kept` are the last of `receipts`, and `text` shows a line for each of them, and none else: below
-- the head, or below the head and the note on what is left out.
abbrev pub Shows : List ToolReceipt → Text → List ToolReceipt → Type 0
Shows receipts text kept =
    (older : List ToolReceipt) × (receipts ≡ older ++ kept)
    × ((text ≡ join newline (ledger_head ++ map receipt_line kept))
        ⊎ (text ≡ join newline (ledger_head ++ (omission ∷ map receipt_line kept))))

map-reverse_aux :
    (rs ys : List ToolReceipt)
    → map receipt_line (reverse_aux rs ys) ≡ reverse_aux (map receipt_line rs) (map receipt_line ys)
map-reverse_aux [] ys = refl
map-reverse_aux (r ∷ rs) ys = map-reverse_aux rs (r ∷ ys)

-- The lines of the last of `receipts`.
abbrev LinesOfLast : List ToolReceipt → List Text → Type 0
LinesOfLast receipts lines =
    (older : List ToolReceipt) × (kept : List ToolReceipt) × (receipts ≡ older ++ kept)
    × (lines ≡ map receipt_line kept)

either-LinesOfLast :
    (b : Bool) (receipts : List ToolReceipt) (xs ys : List Text)
    → LinesOfLast receipts xs
    → LinesOfLast receipts ys
    → LinesOfLast receipts (if b then xs else ys)
either-LinesOfLast true receipts xs ys hx hy = hx
either-LinesOfLast false receipts xs ys hx hy = hy

keep_lines-LinesOfLast :
    (max_chars : ℕ) (newest kept : List ToolReceipt)
    → LinesOfLast
        (reverse_aux newest kept)
        (keep_lines max_chars (map receipt_line newest) (map receipt_line kept))
unfolding keep_lines
keep_lines-LinesOfLast m [] kept = ([], kept, refl, refl)
keep_lines-LinesOfLast m (r ∷ newest) kept =
    either-LinesOfLast (ltb m _) _ _ _
      (reverse (r ∷ newest), kept, reverse_aux-eq (r ∷ newest) kept, refl)
      (keep_lines-LinesOfLast m newest (r ∷ kept))

drop-length_append : (older kept : List ToolReceipt) → drop (length older) (older ++ kept) ≡ kept
drop-length_append [] kept = refl
drop-length_append (r ∷ older) kept = drop-length_append older kept

length-lines : (kept : List ToolReceipt) → length (map receipt_line kept) ≡ length kept
length-lines [] = refl
length-lines (r ∷ kept) = ap suc (length-lines kept)

last_receipts-append :
    (older kept : List ToolReceipt) (n : ℕ)
    → n ≡ length kept
    → last_receipts n (older ++ kept) ≡ kept
unfolding last_receipts
last_receipts-append older kept n h =
    ap (λ k. drop k (older ++ kept)) (omega (arith, length-append older kept, h))
    ∙ drop-length_append older kept

-- The selected lines and receipts, before the last cut.
abbrev Selects : List ToolReceipt → List Text × List ToolReceipt → Type 0
Selects receipts sel = Shows receipts (join newline (ledger_head ++ sel.0)) sel.1

either-Selects :
    (b : Bool) (receipts : List ToolReceipt) (x y : List Text × List ToolReceipt)
    → Selects receipts x
    → Selects receipts y
    → Selects receipts (if b then x else y)
either-Selects true receipts x y hx hy = hx
either-Selects false receipts x y hx hy = hy

Selects-kept :
    (receipts : List ToolReceipt) (lines : List Text)
    → LinesOfLast receipts lines
    → Selects receipts (omission ∷ lines, last_receipts (length lines) receipts)
Selects-kept receipts lines (older, kept, e, l) =
    let last : last_receipts (length lines) receipts ≡ kept =
      ap (λ rs. last_receipts (length lines) rs) e
      ∙ last_receipts-append older kept (length lines) (ap length l ∙ length-lines kept) in
    subst (λ k. Selects receipts (omission ∷ lines, k)) (sym last)
      (older, e, inr (ap (λ ls. join newline (ledger_head ++ (omission ∷ ls))) l))

select_lines-Selects :
    (max_chars : ℕ) (receipts : List ToolReceipt)
    → Selects receipts (select_lines max_chars receipts)
unfolding select_lines
select_lines-Selects m receipts =
    let reversed : map receipt_line (reverse receipts) ≡ reverse (map receipt_line receipts) =
      map-reverse_aux receipts [] in
    let kept : LinesOfLast receipts (keep_lines m (reverse (map receipt_line receipts)) []) =
      subst (λ ls. LinesOfLast receipts (keep_lines m ls [])) reversed
        (subst (λ rs. LinesOfLast rs (keep_lines m (map receipt_line (reverse receipts)) []))
          (reverse-reverse receipts) (keep_lines-LinesOfLast m (reverse receipts) [])) in
    either-Selects (leb _ m) receipts _ _ ([], refl, inl refl) (Selects-kept receipts _ kept)

module _ (receipts : List ToolReceipt) where
  either-Shows :
      (b : Bool) (x y : Text × List ToolReceipt)
      → (is_nil x.1 ≡ true)
      → Shows receipts y.0 y.1
      → is_nil (if b then x else y).1 ≡ false
      → Shows receipts (if b then x else y).0 (if b then x else y).1
  either-Shows true x y hx hy ne = absurd (true≢false (sym hx ∙ ne))
  either-Shows false x y hx hy ne = hy

cut_rendered-Shows :
    (max_chars : ℕ) (text : Text) (receipts retained : List ToolReceipt)
    → Shows receipts text retained
    → is_nil (cut_rendered max_chars text retained).1 ≡ false
    → Shows receipts
        (cut_rendered max_chars text retained).0
        (cut_rendered max_chars text retained).1
unfolding cut_rendered
cut_rendered-Shows m text receipts retained h ne = either-Shows receipts (ltb m _) _ _ refl h ne

-- If the rendered ledger comes with a snapshot that is not empty, the snapshot is a final part of
-- the receipts, and the text shows the head, then the note on omissions or not, then one line for
-- each receipt of the snapshot and nothing else.
pub render_tool_receipts_with_snapshot-Shows :
    (max_chars : ℕ) (receipts : List ToolReceipt)
    → is_nil (render_tool_receipts_with_snapshot max_chars receipts).1 ≡ false
    → Shows receipts
        (render_tool_receipts_with_snapshot max_chars receipts).0
        (render_tool_receipts_with_snapshot max_chars receipts).1
unfolding render_tool_receipts_with_snapshot
render_tool_receipts_with_snapshot-Shows m [] h = absurd (true≢false h)
render_tool_receipts_with_snapshot-Shows m (r ∷ rs) h =
    cut_rendered-Shows m _ (r ∷ rs) _ (select_lines-Selects m (r ∷ rs)) h
