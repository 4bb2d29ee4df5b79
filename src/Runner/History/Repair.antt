-- ===== src/Runner/History/Repair.antt =====
-- A repaired thread: every call answered, none truncated.
use git_agent.Base.{
  Text, true, false, Option, List, [], ◌∷◌, ◌++◌, ◌≡◌, refl, sym, ap, ◌∙◌, subst, ℕ, ◌+◌, All,
  nil_of_length-zero, All-append, contains, ◌==◌, ==_refl, any_by-append, is_nil, length,
  if◌then◌else◌, arith, nat_eq, list_eq, option_eq, Bool-cases, inl, inr,
}
use git_agent.Value.{Value}
use git_agent.Message.{Message, AiMessage, ToolCall, ai, tool, human, system}
use git_agent.Runner.History.{
  answered_ids, answers, dangling, cancelled_answer, drop_invalid, repair, repair_all,
  repaired_messages,
}

-- Of the ids: those that are answered in a thread.
abbrev pub Within : List (Option Text) → List (Option Text) → Type 0
Within xs ys = (a : Option Text) → contains a xs ≡ true → contains a ys ≡ true

-- The message has no truncated call, and all its calls are among the answered ones.
abbrev pub IsClean : List (Option Text) → Message → Type 0
IsClean ids (ai m) =
    (is_nil m.invalid_tool_calls ≡ true) × All (λ c. contains c.id ids ≡ true) m.tool_calls
IsClean ids (tool m) = Unit
IsClean ids (human m) = Unit
IsClean ids (system m) = Unit

answered_ids-append :
    (xs ys : List Message) → answered_ids (xs ++ ys) ≡ answered_ids xs ++ answered_ids ys
answered_ids-append [] ys = refl
answered_ids-append (ai m ∷ xs) ys = answered_ids-append xs ys
answered_ids-append (tool m ∷ xs) ys = ap (λ r. m.tool_call_id ∷ r) (answered_ids-append xs ys)
answered_ids-append (human m ∷ xs) ys = answered_ids-append xs ys
answered_ids-append (system m ∷ xs) ys = answered_ids-append xs ys

contains-append_left : (xs ys : List (Option Text)) → Within xs (xs ++ ys)
contains-append_left xs ys a h = any_by-append (λ x. x == a) xs ys ∙ rw h refl

contains-append_right : (xs ys : List (Option Text)) → Within ys (xs ++ ys)
contains-append_right xs ys a h = any_by-append (λ x. x == a) xs ys ∙ rw h (ground arith)

pub answers_skip :
    (answered : List (Option Text)) (c : ToolCall) (cs : List ToolCall)
    → contains c.id answered ≡ true
    → answers answered (c ∷ cs) ≡ answers answered cs
answers_skip answered c cs p = rw p refl

pub answers_add :
    (answered : List (Option Text)) (c : ToolCall) (cs : List ToolCall)
    → contains c.id answered ≡ false
    → answers answered (c ∷ cs) ≡ tool (cancelled_answer c) ∷ answers answered cs
answers_add answered c cs p = rw p refl

tool_call_id-cancelled_answer : (c : ToolCall) → (cancelled_answer c).tool_call_id ≡ c.id
unfolding cancelled_answer
tool_call_id-cancelled_answer c = refl

-- A call is answered already or gets its answer.
calls_answered :
    (ids answered : List (Option Text)) (calls : List ToolCall)
    → Within answered ids
    → Within (answered_ids (answers answered calls)) ids
    → All (λ c. contains c.id ids ≡ true) calls
calls_answered ids answered [] h k = tt
calls_answered ids answered (c ∷ cs) h k = elim (Bool-cases (contains c.id answered)) [
  | inl p ↦ (
    h c.id p,
    calls_answered ids answered cs h
        (subst (λ r. Within (answered_ids r) ids) (answers_skip answered c cs p) k),
  )
  | inr p ↦
      let k' : Within (c.id ∷ answered_ids (answers answered cs)) ids =
        subst (λ i. Within (i ∷ answered_ids (answers answered cs)) ids)
          (tool_call_id-cancelled_answer c)
          (subst (λ r. Within (answered_ids r) ids) (answers_add answered c cs p) k) in
      (
        k' c.id (rw (==_refl c.id) refl),
        calls_answered ids answered cs h (λ a q. k' a (rw q (ground arith))),
      )
]

answers-IsClean :
    (ids answered : List (Option Text)) (calls : List ToolCall)
    → All (IsClean ids) (answers answered calls)
answers-IsClean ids answered [] = tt
answers-IsClean ids answered (c ∷ cs) = elim (Bool-cases (contains c.id answered)) [
  | inl p ↦
      subst (All (IsClean ids)) (sym (answers_skip answered c cs p))
        (answers-IsClean ids answered cs)
  | inr p ↦
      subst (All (IsClean ids)) (sym (answers_add answered c cs p))
        (tt, answers-IsClean ids answered cs)
]

invalid-drop_invalid :
    (str_value : Value → Text) (m : AiMessage)
    → is_nil (drop_invalid str_value m).invalid_tool_calls ≡ true
unfolding drop_invalid
invalid-drop_invalid str_value m = ground arith

tool_calls-drop_invalid :
    (str_value : Value → Text) (m : AiMessage)
    → (drop_invalid str_value m).tool_calls ≡ m.tool_calls
unfolding drop_invalid
tool_calls-drop_invalid str_value m = ground arith

-- What one message becomes, once `ids` are the answered calls.
repair-IsClean :
    (str_value : Value → Text) (ids answered : List (Option Text)) (m : Message)
    → Within answered ids
    → Within (answered_ids (repair str_value answered m).0) ids
    → All (IsClean ids) (repair str_value answered m).0
unfolding repair
repair-IsClean str_value ids answered (ai m) h k = (
  (
    invalid-drop_invalid str_value m,
    subst (All (λ c. contains c.id ids ≡ true)) (sym (tool_calls-drop_invalid str_value m))
        (calls_answered ids answered m.tool_calls h k),
  ),
  answers-IsClean ids answered m.tool_calls,
)
repair-IsClean str_value ids answered (tool m) h k = (tt, tt)
repair-IsClean str_value ids answered (human m) h k = (tt, tt)
repair-IsClean str_value ids answered (system m) h k = (tt, tt)

repair_all-IsClean :
    (str_value : Value → Text) (ids answered : List (Option Text)) (ms : List Message)
    → Within answered ids
    → Within (answered_ids (repair_all str_value answered ms).0) ids
    → All (IsClean ids) (repair_all str_value answered ms).0
unfolding repair_all
repair_all-IsClean str_value ids answered [] h k = tt
repair_all-IsClean str_value ids answered (m ∷ ms) h k =
    let here : List Message = (repair str_value answered m).0 in
    let rest : List Message = (repair_all str_value answered ms).0 in
    let k' : Within (answered_ids here ++ answered_ids rest) ids =
      subst (λ r. Within r ids) (answered_ids-append here rest) k in
    All-append (IsClean ids) here rest
      (repair-IsClean str_value ids answered m h
        (λ a p. k' a (contains-append_left (answered_ids here) (answered_ids rest) a p)))
      (repair_all-IsClean str_value ids answered ms h
        (λ a p. k' a (contains-append_right (answered_ids here) (answered_ids rest) a p)))

-- What was answered stays answered.
repair_all-answered :
    (str_value : Value → Text) (answered : List (Option Text)) (ms : List Message)
    → Within (answered_ids ms) (answered_ids (repair_all str_value answered ms).0)
unfolding repair_all repair
repair_all-answered str_value answered [] a h = h
repair_all-answered str_value answered (ai m ∷ ms) a h =
    let new : List Message = answers answered m.tool_calls in
    let rest : List Message = (repair_all str_value answered ms).0 in
    subst (λ r. contains a r ≡ true) (sym (answered_ids-append new rest))
      (contains-append_right (answered_ids new) (answered_ids rest) a
        (repair_all-answered str_value answered ms a h))
repair_all-answered str_value answered (tool m ∷ ms) a h =
    ground (arith, repair_all-answered str_value answered ms a)
repair_all-answered str_value answered (human m ∷ ms) a h =
    repair_all-answered str_value answered ms a h
repair_all-answered str_value answered (system m ∷ ms) a h =
    repair_all-answered str_value answered ms a h

-- In the repaired history no AI message has a truncated call, and every call of every AI message
-- has a tool message that answers it.
pub repaired_messages-IsClean :
    (str_value : Value → Text) (messages : List Message)
    → All
        (IsClean (answered_ids (repaired_messages str_value messages).0))
        (repaired_messages str_value messages).0
unfolding repaired_messages
repaired_messages-IsClean str_value messages =
    repair_all-IsClean str_value _ (answered_ids messages) messages
      (repair_all-answered str_value (answered_ids messages) messages) (λ a p. p)

dangling-clean :
    (ids : List (Option Text)) (calls : List ToolCall)
    → All (λ c. contains c.id ids ≡ true) calls
    → dangling ids calls ≡ []
dangling-clean ids [] h = refl
dangling-clean ids (c ∷ cs) h = rw h.0 (dangling-clean ids cs h.1)

repair_clean :
    (str_value : Value → Text) (ids : List (Option Text)) (m : Message)
    → IsClean ids m
    → repair str_value ids m ≡ (m ∷ [], 0)
unfolding repair drop_invalid
repair_clean str_value ids (ai m) h = rw (dangling-clean ids m.tool_calls h.1, h.0) refl
repair_clean str_value ids (tool m) h = refl
repair_clean str_value ids (human m) h = refl
repair_clean str_value ids (system m) h = refl

repair_all_clean :
    (str_value : Value → Text) (ids : List (Option Text)) (ms : List Message)
    → All (IsClean ids) ms
    → repair_all str_value ids ms ≡ (ms, 0)
unfolding repair_all
repair_all_clean str_value ids [] h = refl
repair_all_clean str_value ids (m ∷ ms) h =
    rw (repair_clean str_value ids m h.0, repair_all_clean str_value ids ms h.1) refl

-- Repairing a repaired history changes nothing and counts no repair.
pub repaired_messages_idem :
    (str_value : Value → Text) (messages : List Message)
    → repaired_messages str_value (repaired_messages str_value messages).0
      ≡ ((repaired_messages str_value messages).0, 0)
unfolding repaired_messages
repaired_messages_idem str_value messages =
    repair_all_clean str_value _ _ (repaired_messages-IsClean str_value messages)

module _ (str_value : Value → Text) (ids : List (Option Text)) where
  repair_ai_zero :
      (m : AiMessage) (n : ℕ)
      → (if is_nil m.invalid_tool_calls then 0 else 1) + n ≡ 0
      → (n ≡ 0) × (drop_invalid str_value m ≡ m)
  unfolding drop_invalid
  repair_ai_zero m n h = elim (Bool-cases (is_nil m.invalid_tool_calls)) [
    | inl p ↦ (ground arith, rw p refl)
    | inr p ↦ absurd (ground arith)
  ]

  repair_zero : (m : Message) → (repair str_value ids m).1 ≡ 0 → (repair str_value ids m).0 ≡ m ∷ []
  unfolding repair
  repair_zero (ai m) h =
      let (quiet, same) = repair_ai_zero m (length (dangling ids m.tool_calls)) h in
      rw (nil_of_length-zero (dangling ids m.tool_calls) quiet, same) refl
  repair_zero (tool m) h = refl
  repair_zero (human m) h = refl
  repair_zero (system m) h = refl

  repair_all_zero :
      (ms : List Message)
      → (repair_all str_value ids ms).1 ≡ 0
      → (repair_all str_value ids ms).0 ≡ ms
  unfolding repair_all
  repair_all_zero [] h = refl
  repair_all_zero (m ∷ ms) h =
      rw (repair_zero m (omega (arith, h)), repair_all_zero ms (omega (arith, h))) refl

-- A repair that counts nothing has changed nothing.
pub repaired_messages_zero :
    (str_value : Value → Text) (messages : List Message)
    → (repaired_messages str_value messages).1 ≡ 0
    → (repaired_messages str_value messages).0 ≡ messages
unfolding repaired_messages
repaired_messages_zero str_value messages =
    repair_all_zero str_value (answered_ids messages) messages

pub repaired_messages_nil : (str_value : Value → Text) → repaired_messages str_value [] ≡ ([], 0)
unfolding repaired_messages repair_all
repaired_messages_nil str_value = refl
