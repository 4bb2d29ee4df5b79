-- ===== src/Runner/History/Update.antt =====
-- How the repair reaches the thread.
use git_agent.Base.{
  Text, true, Option, none, some, List, [], ◌∷◌, ◌++◌, ◌||◌, ◌≡◌, sym, ap, ◌∙◌, subst, ℕ, take,
  drop, take-append-drop, length, is_nil, ==-iff_eq, nat_eq, list_eq, ◌==◌, Bool-cases, inl, inr,
  ◌⊎◌, refl, All,
}
use git_agent.Value.{Value}
use git_agent.Message.{Message, message_eq, ai, tool, human, system}
use git_agent.Runner.History.{
  Change, append, rewrite_all, change_to, repaired_messages, repair_dangling_tool_calls,
}
use git_agent.Runner.History.Added.{HasNoId, message_id, drop-All-HasNoId}
use git_agent.Runner.History.Repair.{repaired_messages_zero, repaired_messages_nil}

untouched :
    (str_value : Value → Text) (messages : List Message)
    → (is_nil messages || (repaired_messages str_value messages).1 == 0) ≡ true
    → (repaired_messages str_value messages).0 ≡ messages
untouched str_value [] h = ap (λ r. r.0) (repaired_messages_nil str_value)
untouched str_value (m ∷ ms) h =
    repaired_messages_zero str_value (m ∷ ms)
      ((==-iff_eq (repaired_messages str_value (m ∷ ms)).1 0).0 h)

-- The message without its id.
abbrev pub forget_id : Message → Message
forget_id (ai m) = ai (record m { id = none })
forget_id (tool m) = tool (record m { id = none })
forget_id (human m) = human (record m { id = none })
forget_id (system m) = system (record m { id = none })

-- `n` is `m`, or `m` has no id and `n` is `m` with an id.
abbrev pub IsGivenId : Message → Message → Type 0
IsGivenId m n = (m ≡ n) ⊎ ((message_id m ≡ none) × (m ≡ forget_id n))

-- The same messages in the same order, but for ids that were missing.
abbrev pub AreGivenIds : List Message → List Message → Type 0
AreGivenIds [] [] = Unit
AreGivenIds [] (n ∷ ns) = ⊥
AreGivenIds (m ∷ ms) [] = ⊥
AreGivenIds (m ∷ ms) (n ∷ ns) = IsGivenId m n × AreGivenIds ms ns

AreGivenIds-refl : (ms : List Message) → AreGivenIds ms ms
AreGivenIds-refl [] = tt
AreGivenIds-refl (m ∷ ms) = (inl refl, AreGivenIds-refl ms)

module _ (add_messages : List Message → Change → List Message) where
  -- The thread after a change, if there is one.
  abbrev pub thread_after : List Message → Option Change → List Message
  thread_after messages none = messages
  thread_after messages (some c) = add_messages messages c

  module _
      (adds : (xs ys : List Message)
        → All HasNoId ys
        → AreGivenIds (xs ++ ys) (add_messages xs (append ys)))
      (replaces : (xs ys : List Message) → AreGivenIds ys (add_messages xs (rewrite_all ys))) where
    add_messages-change_to :
        (str_value : Value → Text) (messages : List Message)
        → let fixed = (repaired_messages str_value messages).0 in
          AreGivenIds fixed (add_messages messages (change_to messages fixed))
    unfolding change_to
    add_messages-change_to str_value messages =
        let fixed : List Message = (repaired_messages str_value messages).0 in
        elim (Bool-cases (take (length messages) fixed == messages)) [
          | inl p ↦
              let same = (==-iff_eq (take (length messages) fixed) messages).0 p in
              let new = drop (length messages) fixed in
              rw p (
                subst (λ xs. AreGivenIds xs (add_messages messages (append new)))
                  (ap (λ xs. xs ++ new) (sym same) ∙ take-append-drop (length messages) fixed)
                  (adds messages new (drop-All-HasNoId str_value messages same)))
          | inr p ↦ rw p (replaces messages fixed)
        ]

    -- `add_messages` appends messages without an id, replaces the thread on `REMOVE_ALL_MESSAGES`,
    -- and may give an id to each message that has none. Then the thread after
    -- `repair_dangling_tool_calls` is the repaired history, but for such ids, whichever of the two
    -- changes it chose, or none: what it appends has no id that could replace another message.
    pub repair_dangling_tool_calls-thread :
        (str_value : Value → Text) (messages : List Message)
        → AreGivenIds
            (repaired_messages str_value messages).0
            (thread_after messages (repair_dangling_tool_calls str_value messages).0)
    unfolding repair_dangling_tool_calls
    repair_dangling_tool_calls-thread str_value messages =
        let fixed : List Message × ℕ = repaired_messages str_value messages in
        elim (Bool-cases (is_nil messages || fixed.1 == 0)) [
          | inl p ↦ rw p (
              subst (λ xs. AreGivenIds xs messages) (sym (untouched str_value messages p))
                (AreGivenIds-refl messages))
          | inr p ↦ rw p (add_messages-change_to str_value messages)
        ]
