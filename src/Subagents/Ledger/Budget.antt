-- ===== src/Subagents/Ledger/Budget.antt =====
-- The length of the rendered ledger.
use git_agent.Base.{
  Text, codes, List, [], ◌∷◌, ◌++◌, ◌≡◌, refl, ℕ, ◌-◌, ◌≤◌, max, arith, length, length-append,
  length-take, take, join,
}
use git_agent.Subagents.Citations.{ToolReceipt}
use git_agent.Subagents.Ledger.{
  newline, cut_rendered, ledger_head, select_lines, render_tool_receipts_with_snapshot,
}

dots_lem : length (newline ++ codes "...") ≡ 4
unfolding codes
dots_lem = refl

length-cut_rendered :
    (max_chars : ℕ) (rendered : Text) (retained : List ToolReceipt)
    → length (cut_rendered max_chars rendered retained).0 ≤ max 4 max_chars
unfolding cut_rendered
length-cut_rendered m t rs = ground (
  arith,
  length-append (take (m - 4) t) (newline ++ codes "..."),
  length-take (m - 4) t,
  dots_lem,
)

-- The rendered ledger is no longer than the budget, or than the four characters of its ellipsis if
-- the budget is smaller, however many receipts there are and however long their lines.
pub length-render_tool_receipts_with_snapshot :
    (max_chars : ℕ) (receipts : List ToolReceipt)
    → length (render_tool_receipts_with_snapshot max_chars receipts).0 ≤ max 4 max_chars
unfolding render_tool_receipts_with_snapshot
length-render_tool_receipts_with_snapshot m [] = omega arith
length-render_tool_receipts_with_snapshot m (r ∷ rs) =
    let (lines, retained) = select_lines m (r ∷ rs) in
    length-cut_rendered m (join newline (ledger_head ++ lines)) retained
