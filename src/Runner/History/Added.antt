-- ===== src/Runner/History/Added.antt =====
-- The messages that the repair adds to a thread have no id.
use git_agent.Base.{
  Text, Bool, true, false, Option, none, List, [], ◌∷◌, ◌++◌, ◌≡◌, refl, sym, ap, ◌∙◌, subst, suc,
  ◌+◌, not, arith, All, All-append, drop-All, contains, length, length-append, take, drop,
  take-append-drop, filter_by, filter_by-append, length-filter_by-le, nat_eq, list_eq, option_eq,
  ==_refl, Bool-cases, inl, inr, if◌then◌else◌, true≢false,
}
use git_agent.Value.{Value}
use git_agent.Message.{Message, ToolCall, ai, tool, human, system}
use git_agent.Runner.History.{
  answered_ids, answers, cancelled_answer, repair, repair_all, repaired_messages,
}
use git_agent.Runner.History.Repair.{Within, answers_skip, answers_add}

abbrev pub message_id : Message → Option Text
message_id (ai m) = m.id
message_id (tool m) = m.id
message_id (human m) = m.id
message_id (system m) = m.id

abbrev pub HasNoId : Message → Type 0
HasNoId m = message_id m ≡ none

-- The message answers a call that is not among the answered ones.
abbrev is_new : List (Option Text) → Message → Bool
is_new ids (tool m) = not (contains m.tool_call_id ids)
is_new ids (ai m) = false
is_new ids (human m) = false
is_new ids (system m) = false

Within-tail :
    (a : Option Text) (more ids : List (Option Text)) → Within (a ∷ more) ids → Within more ids
Within-tail a more ids h b q = h b (rw q (ground arith))

Within-head :
    (a : Option Text) (more ids : List (Option Text))
    → Within (a ∷ more) ids
    → contains a ids ≡ true
Within-head a more ids h = h a (rw (==_refl a) refl)

-- No message of a thread is new to it.
filter-is_new :
    (ids : List (Option Text)) (ms : List Message)
    → Within (answered_ids ms) ids
    → filter_by (is_new ids) ms ≡ []
filter-is_new ids [] h = refl
filter-is_new ids (ai m ∷ ms) h = filter-is_new ids ms h
filter-is_new ids (tool m ∷ ms) h =
    rw (Within-head m.tool_call_id (answered_ids ms) ids h)
      (filter-is_new ids ms (Within-tail m.tool_call_id (answered_ids ms) ids h))
filter-is_new ids (human m ∷ ms) h = filter-is_new ids ms h
filter-is_new ids (system m ∷ ms) h = filter-is_new ids ms h

-- All the answers that are added are.
filter-answers :
    (ids : List (Option Text)) (calls : List ToolCall)
    → filter_by (is_new ids) (answers ids calls) ≡ answers ids calls
unfolding cancelled_answer
filter-answers ids [] = refl
filter-answers ids (c ∷ cs) = elim (Bool-cases (contains c.id ids)) [
  | inl p ↦
      subst (λ r. filter_by (is_new ids) r ≡ r) (sym (answers_skip ids c cs p))
        (filter-answers ids cs)
  | inr p ↦
      subst (λ r. filter_by (is_new ids) r ≡ r) (sym (answers_add ids c cs p))
        (rw p (ap (λ r. tool (cancelled_answer c) ∷ r) (filter-answers ids cs)))
]

answers-All-HasNoId :
    (ids : List (Option Text)) (calls : List ToolCall) → All HasNoId (answers ids calls)
unfolding cancelled_answer
answers-All-HasNoId ids [] = tt
answers-All-HasNoId ids (c ∷ cs) = elim (Bool-cases (contains c.id ids)) [
  | inl p ↦ subst (All HasNoId) (sym (answers_skip ids c cs p)) (answers-All-HasNoId ids cs)
  | inr p ↦ subst (All HasNoId) (sym (answers_add ids c cs p)) (refl, answers-All-HasNoId ids cs)
]

module _ (str_value : Value → Text) (ids : List (Option Text)) where
  -- The repaired history is longer by its new messages.
  length-repair_all :
      (ms : List Message)
      → Within (answered_ids ms) ids
      → length (filter_by (is_new ids) (repair_all str_value ids ms).0) + length ms
        ≡ length (repair_all str_value ids ms).0
  unfolding repair_all repair
  length-repair_all [] h = omega arith
  length-repair_all (ai m ∷ ms) h =
      let new : List Message = answers ids m.tool_calls in
      let rest : List Message = (repair_all str_value ids ms).0 in
      omega (
        arith,
        length-repair_all ms h,
        ap length (filter_by-append (is_new ids) new rest),
        length-append (filter_by (is_new ids) new) (filter_by (is_new ids) rest),
        ap length (filter-answers ids m.tool_calls),
        length-append new rest,
      )
  length-repair_all (tool m ∷ ms) h =
      rw (Within-head m.tool_call_id (answered_ids ms) ids h)
        (omega (arith, length-repair_all ms (Within-tail m.tool_call_id (answered_ids ms) ids h)))
  length-repair_all (human m ∷ ms) h = omega (arith, length-repair_all ms h)
  length-repair_all (system m ∷ ms) h = omega (arith, length-repair_all ms h)

  -- The new ones have no id.
  repair_all-new :
      (ms : List Message)
      → Within (answered_ids ms) ids
      → All (λ m. is_new ids m ≡ true → HasNoId m) (repair_all str_value ids ms).0
  unfolding repair_all repair
  repair_all-new [] h = tt
  repair_all-new (ai m ∷ ms) h = (
    (λ e. absurd (true≢false (sym e))),
    All-append _ (answers ids m.tool_calls) (repair_all str_value ids ms).0
        (always (answers ids m.tool_calls) (answers-All-HasNoId ids m.tool_calls))
        (repair_all-new ms h),
  )
    where
      always : (xs : List Message) → All HasNoId xs → All (λ x. is_new ids x ≡ true → HasNoId x) xs
      always [] k = tt
      always (x ∷ xs) k = ((λ e. k.0), always xs k.1)
  repair_all-new (tool m ∷ ms) h = (
    (λ e.
        absurd (true≢false (sym e ∙ ap not (Within-head m.tool_call_id (answered_ids ms) ids h)))),
    repair_all-new ms (Within-tail m.tool_call_id (answered_ids ms) ids h),
  )
  repair_all-new (human m ∷ ms) h = ((λ e. absurd (true≢false (sym e))), repair_all-new ms h)
  repair_all-new (system m ∷ ms) h = ((λ e. absurd (true≢false (sym e))), repair_all-new ms h)

first_of_number :
    (p : Message → Bool) (x : Message) (xs : List Message) (b : Bool)
    → length (if b then x ∷ filter_by p xs else filter_by p xs) ≡ suc (length xs)
    → (b ≡ true) × (length (filter_by p xs) ≡ length xs)
first_of_number p x xs true n = (refl, omega (arith, n))
first_of_number p x xs false n = absurd (omega (arith, n, length-filter_by-le p xs))

all_of_number :
    (p : Message → Bool) (xs : List Message)
    → length (filter_by p xs) ≡ length xs
    → All (λ x. p x ≡ true) xs
all_of_number p [] h = tt
all_of_number p (x ∷ xs) h =
    let (first, rest) = first_of_number p x xs (p x) h in (first, all_of_number p xs rest)

All-apply :
    (p : Message → Bool) (xs : List Message)
    → All (λ x. p x ≡ true → HasNoId x) xs
    → All (λ x. p x ≡ true) xs
    → All HasNoId xs
All-apply p [] f h = tt
All-apply p (x ∷ xs) f h = (f.0 h.0, All-apply p xs f.1 h.1)

-- If the repaired history begins with the thread, all that comes behind it has no id.
pub drop-All-HasNoId :
    (str_value : Value → Text) (ms : List Message)
    → let fixed = (repaired_messages str_value ms).0 in
      take (length ms) fixed ≡ ms → All HasNoId (drop (length ms) fixed)
unfolding repaired_messages
drop-All-HasNoId str_value ms same =
    let ids = answered_ids ms in
    let fixed : List Message = (repair_all str_value ids ms).0 in
    let new : List Message = drop (length ms) fixed in
    let parts : fixed ≡ ms ++ new =
      sym (take-append-drop (length ms) fixed) ∙ ap (λ xs. xs ++ new) same in
    let none_old = filter-is_new ids ms (λ a q. q) in
    All-apply (is_new ids) new
      (drop-All _ (length ms) fixed (repair_all-new str_value ids ms (λ a q. q)))
      (all_of_number (is_new ids) new (
        omega (
          arith,
          length-repair_all str_value ids ms (λ a q. q),
          ap (λ xs. length (filter_by (is_new ids) xs)) parts,
          ap length (filter_by-append (is_new ids) ms new),
          length-append (filter_by (is_new ids) ms) (filter_by (is_new ids) new),
          ap length none_old,
          ap length parts,
          length-append ms new,
        )))
