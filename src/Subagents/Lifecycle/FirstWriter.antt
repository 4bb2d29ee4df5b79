-- ===== src/Subagents/Lifecycle/FirstWriter.antt =====
-- The first terminal writer wins, whatever the writers and the order in which they come.
use git_agent.Base.{
  Bool, true, false, Option, none, some, List, [], ◌∷◌, ◌≡◌, refl, sym, ap, ◌∙◌, ℕ, ◌+◌,
  if◌then◌else◌, Bool-cases, inl, inr, arith, true≢false, if_true,
}
use git_agent.Value.{Fields}
use git_agent.Subagents.Lifecycle.{
  is_terminal, SubagentResult, Terminal, Answer, value_error, answers, set_terminal,
  try_set_terminal, update_token_usage_records, update_tool_receipts, put_tool_receipts,
}

-- A call on the holder by one of the tasks that share it.
pub data Call : Type 0 where
  terminal_call : ℕ → Terminal → Call
  usage_call : List Fields → Call
  receipts_call : Option (List Fields) → Call

abbrev pub perform : Call → SubagentResult → SubagentResult
perform (terminal_call now t) r = (try_set_terminal now t r).0
perform (usage_call records) r = update_token_usage_records records r
perform (receipts_call receipts) r = update_tool_receipts receipts r

abbrev pub perform_all : List Call → SubagentResult → SubagentResult
perform_all [] r = r
perform_all (c ∷ cs) r = perform_all cs (perform c r)

abbrev pub is_true : Answer → Bool
is_true value_error = false
is_true (answers b) = b

-- Whether the call is a terminal write that was told it had won.
abbrev pub won : Call → SubagentResult → Bool
won (terminal_call now t) r = is_true (try_set_terminal now t r).1
won _ r = false

abbrev pub one_if : Bool → ℕ
one_if b = if b then 1 else 0

abbrev pub wins : List Call → SubagentResult → ℕ
wins [] r = 0
wins (c ∷ cs) r = let rest = wins cs (perform c r) in one_if (won c r) + rest

-- The shape of `try_set_terminal`, by its two tests.
module _ (r s : SubagentResult) where
  abbrev write_of : Bool → Bool → SubagentResult × Answer
  write_of asked held =
      if asked then (if held then (r, answers false) else (s, answers true)) else (r, value_error)

  write_of_held : (asked : Bool) → (write_of asked true).0 ≡ r
  write_of_held true = refl
  write_of_held false = refl

  write_of_refused : (asked : Bool) → is_true (write_of asked true).1 ≡ false
  write_of_refused true = refl
  write_of_refused false = refl

  write_of_won :
      (asked held : Bool)
      → is_true (write_of asked held).1 ≡ true
      → (asked ≡ true) × ((write_of asked held).0 ≡ s)
  write_of_won true true h = absurd (true≢false (sym h))
  write_of_won true false h = (refl, refl)
  write_of_won false held h = absurd (true≢false (sym h))

  write_of_lost :
      (asked held : Bool) → is_true (write_of asked held).1 ≡ false → (write_of asked held).0 ≡ r
  write_of_lost true true h = refl
  write_of_lost true false h = absurd (true≢false h)
  write_of_lost false held h = refl

perform_terminal : (c : Call) (r : SubagentResult) → is_terminal r.status ≡ true → perform c r ≡ r
unfolding try_set_terminal update_token_usage_records update_tool_receipts put_tool_receipts
perform_terminal (terminal_call now t) r h =
    ap (λ b. (write_of r (set_terminal now t r) (is_terminal t.status) b).0) h
    ∙ write_of_held r (set_terminal now t r) (is_terminal t.status)
perform_terminal (usage_call records) r h = if_true _ _ _ h
perform_terminal (receipts_call none) r h = refl
perform_terminal (receipts_call (some receipts)) r h = if_true _ _ _ h

won_terminal : (c : Call) (r : SubagentResult) → is_terminal r.status ≡ true → won c r ≡ false
unfolding try_set_terminal
won_terminal (terminal_call now t) r h =
    ap (λ b. is_true (write_of r (set_terminal now t r) (is_terminal t.status) b).1) h
    ∙ write_of_refused r (set_terminal now t r) (is_terminal t.status)
won_terminal (usage_call records) r h = refl
won_terminal (receipts_call receipts) r h = refl

terminal_of_won :
    (c : Call) (r : SubagentResult) → won c r ≡ true → is_terminal (perform c r).status ≡ true
unfolding try_set_terminal set_terminal
terminal_of_won (terminal_call now t) r h =
    let (asked, wrote) = write_of_won r (set_terminal now t r) (is_terminal t.status) _ h in
    ap (λ q. is_terminal q.status) wrote ∙ asked
terminal_of_won (usage_call records) r h = absurd (true≢false (sym h))
terminal_of_won (receipts_call receipts) r h = absurd (true≢false (sym h))

status-put_tool_receipts :
    (receipts : List Fields) (r : SubagentResult) → (put_tool_receipts receipts r).status ≡ r.status
unfolding put_tool_receipts
status-put_tool_receipts receipts r = ground arith

status_of_lost : (c : Call) (r : SubagentResult) → won c r ≡ false → (perform c r).status ≡ r.status
unfolding try_set_terminal update_token_usage_records update_tool_receipts
status_of_lost (terminal_call now t) r h =
    ap (λ q. q.status) (write_of_lost r (set_terminal now t r) (is_terminal t.status) _ h)
status_of_lost (usage_call records) r h = ground arith
status_of_lost (receipts_call none) r h = refl
status_of_lost (receipts_call (some receipts)) r h = status-put_tool_receipts receipts r

-- Once the holder is terminal, no sequence of calls changes anything in it.
pub perform_all_terminal :
    (cs : List Call) (r : SubagentResult) → is_terminal r.status ≡ true → perform_all cs r ≡ r
perform_all_terminal [] r h = refl
perform_all_terminal (c ∷ cs) r h =
    ap (perform_all cs) (perform_terminal c r h) ∙ perform_all_terminal cs r h

wins_terminal : (cs : List Call) (r : SubagentResult) → is_terminal r.status ≡ true → wins cs r ≡ 0
wins_terminal [] r h = refl
wins_terminal (c ∷ cs) r h = omega (
  arith,
  ap one_if (won_terminal c r h),
  ap (wins cs) (perform_terminal c r h),
  wins_terminal cs r h,
)

-- Of all the terminal writes in a sequence of calls on a holder that is not terminal exactly one is
-- told that it won if the holder ends up terminal, and none if it does not.
pub wins-perform_all :
    (cs : List Call) (r : SubagentResult)
    → is_terminal r.status ≡ false
    → wins cs r ≡ one_if (is_terminal (perform_all cs r).status)
wins-perform_all [] r h = sym (ap one_if h)
wins-perform_all (c ∷ cs) r h = elim (Bool-cases (won c r)) [
  | inl w ↦
      let now_terminal : is_terminal (perform c r).status ≡ true = terminal_of_won c r w in
      let kept : is_terminal (perform_all cs (perform c r)).status ≡ true =
        ap (λ q. is_terminal q.status) (perform_all_terminal cs (perform c r) now_terminal)
        ∙ now_terminal in
      omega (arith, ap one_if w, wins_terminal cs (perform c r) now_terminal, ap one_if kept)
  | inr l ↦ omega (
    arith,
    ap one_if l,
    wins-perform_all cs (perform c r) (ap is_terminal (status_of_lost c r l) ∙ h),
  )
]
