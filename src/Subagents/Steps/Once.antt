-- ===== src/Subagents/Steps/Once.antt =====
-- What a look at the stream captures, and that it is captured once.
use git_agent.Base.{
  Text, Option, none, some, List, [], ◌∷◌, ◌++◌, ◌≡◌, refl, sym, ap, ◌∙◌, subst, ℕ, zero, suc, ◌+◌,
  ltb, length, take, drop, take-append-drop, get_last?, nat_eq, list_eq, option_eq, Distinct, All,
  All-append, drop-All, OnSome, if_true, if_false, Bool-cases, inl, inr,
}
use git_agent.Value.{Value}
use git_agent.Message.{Message, ai, tool, human, system}
use git_agent.Subagents.Steps.{
  Step, step_eq, Captured, capture_built, capture, capture_all, capture_last, capture_from,
  capture_new_step_messages, build_subagent_step,
}
use git_agent.Subagents.Steps.Capture.{
  HasId, IsSeen, Extends, Extends-refl, Extends-trans, IsSeen-Extends, All-IsSeen-Extends,
  add_step-seen, last-All, take_all, drop_all, drop_own, not_ltb, start, captures,
}

-- The step of a message of the list, at its place.
abbrev pub IsStepOf : (Value → Text) → Text → List Message → Step → Type 0
IsStepOf json task_id messages s =
    (i : ℕ) × (m : Message) × (rest : List Message) × (id : Option Text) × (drop i messages
      ≡ m ∷ rest)
    × (build_subagent_step json task_id i m ≡ some (s, id))

drop-next :
    (i : ℕ) (ms : List Message) (m : Message) (rest : List Message)
    → drop i ms ≡ m ∷ rest
    → drop (suc i) ms ≡ rest
drop-next zero [] m rest e = cc
drop-next zero (n ∷ ms) m rest e = cc
drop-next (suc i) [] m rest e = cc
drop-next (suc i) (n ∷ ms) m rest e = drop-next i ms m rest e

module _ (json : Value → Text) (task_id : Text) (messages : List Message) where
  abbrev P : Step → Type 0
  P = IsStepOf json task_id messages

  capture-Extends :
      (i : ℕ) (m : Message) (rest : List Message) (c : Captured)
      → HasId m
      → drop i messages ≡ m ∷ rest
      → Extends P c (capture json task_id i m c) × IsSeen (capture json task_id i m c) m
  unfolding capture capture_built build_subagent_step
  capture-Extends i (ai m) rest c h e = captures P _ m.id c h (i, ai m, rest, m.id, e, refl)
  capture-Extends i (tool m) rest c h e = captures P _ m.id c h (i, tool m, rest, m.id, e, refl)
  capture-Extends i (human m) rest c h e = (Extends-refl P c, tt)
  capture-Extends i (system m) rest c h e = (Extends-refl P c, tt)

  capture_all-Extends :
      (i : ℕ) (ms : List Message) (c : Captured)
      → All HasId ms
      → drop i messages ≡ ms
      → Extends P c (capture_all json task_id i ms c)
        × All (IsSeen (capture_all json task_id i ms c)) ms
  unfolding capture_all
  capture_all-Extends i [] c h e = (Extends-refl P c, tt)
  capture_all-Extends i (m ∷ ms) c h e =
      let d = capture json task_id i m c in
      let (one, seen) = capture-Extends i m ms c h.0 e in
      let (rest, others) = capture_all-Extends (suc i) ms d h.1 (drop-next i messages m ms e) in
      (Extends-trans P c d _ one rest, (IsSeen-Extends P d _ m rest seen, others))

module _ (json : Value → Text) (task_id : Text) where
  -- A message that was seen is not captured again.
  capture-seen : (i : ℕ) (m : Message) (c : Captured) → IsSeen c m → capture json task_id i m c ≡ c
  unfolding capture capture_built build_subagent_step
  capture-seen i (ai m) c h = add_step-seen _ m.id c h
  capture-seen i (tool m) c h = add_step-seen _ m.id c h
  capture-seen i (human m) c h = refl
  capture-seen i (system m) c h = refl

  capture_all-seen :
      (i : ℕ) (ms : List Message) (c : Captured)
      → All (IsSeen c) ms
      → capture_all json task_id i ms c ≡ c
  unfolding capture_all
  capture_all-seen i [] c h = refl
  capture_all-seen i (m ∷ ms) c h =
      ap (capture_all json task_id (suc i) ms) (capture-seen i m c h.0)
      ∙ capture_all-seen (suc i) ms c h.1

  capture_last-seen :
      (i : ℕ) (o : Option Message) (c : Captured)
      → OnSome (IsSeen c) o
      → capture_last json task_id i o c ≡ c
  unfolding capture_last
  capture_last-seen i none c h = refl
  capture_last-seen i (some m) c h = capture-seen i m c h

  capture_from-seen :
      (ms : List Message) (n : ℕ) (c : Captured)
      → All (IsSeen c) ms
      → capture_from json task_id ms n c ≡ c
  unfolding capture_from
  capture_from-seen ms n c h = elim (Bool-cases (ltb n (length ms))) [
    | inl p ↦ if_true _ _ _ p ∙ capture_all-seen n (drop n ms) c (drop-All (IsSeen c) n ms h)
    | inr q ↦ if_false _ _ _ q ∙ capture_last-seen _ (get_last? ms) c (last-All (IsSeen c) ms h)
  ]

  -- The messages in front of the cursor were seen before, and the others are seen now.
  capture_from-Extends :
      (ms : List Message) (n : ℕ) (c : Captured)
      → All HasId ms
      → All (IsSeen c) (take n ms)
      → Extends (IsStepOf json task_id ms) c (capture_from json task_id ms n c)
        × All (IsSeen (capture_from json task_id ms n c)) ms
  unfolding capture_from
  capture_from-Extends ms n c ids before = elim (Bool-cases (ltb n (length ms))) [
    | inl p ↦
        let d = capture_all json task_id n (drop n ms) c in
        let (extends, others) =
          capture_all-Extends json task_id ms n (drop n ms) c (drop-All HasId n ms ids) refl in
        let seen : All (IsSeen d) (take n ms ++ drop n ms) =
          All-append (IsSeen d) (take n ms) (drop n ms)
            (All-IsSeen-Extends (IsStepOf json task_id ms) c d (take n ms) extends before) others in
        subst (λ e. Extends (IsStepOf json task_id ms) c e × All (IsSeen e) ms)
          (sym (if_true _ d _ p)) (extends, subst (All (IsSeen d)) (take-append-drop n ms) seen)
    | inr q ↦
        let seen : All (IsSeen c) ms =
          subst (All (IsSeen c)) (take_all n ms (not_ltb n (length ms) q)) before in
        subst (λ e. Extends (IsStepOf json task_id ms) c e × All (IsSeen e) ms)
          (sym (capture_from-seen ms n c seen)) (Extends-refl (IsStepOf json task_id ms) c, seen)
  ]

  -- All messages have ids, and those in front of the start were seen before. Whatever is in the
  -- stream: the steps that were captured stay where they were, and the new steps are exactly those
  -- behind them; each is the step of a message at its place, there is one for each id that is newly seen,
  -- and no id is seen twice if none was before; after it all messages are seen, and at whatever cursor they are read again, there is no
  -- new step and nothing changes.
  pub capture_new_step_messages-once :
      (messages : List Message) (c : Captured) (processed_count again : ℕ)
      → All HasId messages
      → Distinct c.seen_ids
      → All (IsSeen c) (take (start messages processed_count) messages)
      → let r = capture_new_step_messages json task_id messages c processed_count in
        (c.steps ++ r.1 ≡ r.2.steps)
        × All (IsStepOf json task_id messages) r.1
        × (length r.1 + length c.seen_ids ≡ length r.2.seen_ids)
        × Distinct r.2.seen_ids
        × All (IsSeen r.2) messages
        × (capture_new_step_messages json task_id messages r.2 again ≡ (length messages, [], r.2))
  unfolding capture_new_step_messages
  capture_new_step_messages-once messages c n again ids distinct before =
      let d = capture_from json task_id messages (start messages n) c in
      let (((new, e, number, built), still, more), seen) =
        capture_from-Extends messages (start messages n) c ids before in
      let tail : drop (length c.steps) d.steps ≡ new =
        ap (drop (length c.steps)) (sym e) ∙ drop_own c.steps new in
      (
        ap (λ xs. c.steps ++ xs) tail ∙ e,
        subst (All (IsStepOf json task_id messages)) (sym tail) built,
        ap (λ xs. length xs + length c.seen_ids) tail ∙ number,
        still distinct,
        seen,
        ap (λ x. (length messages, drop (length d.steps) x.steps, x))
              (capture_from-seen messages (start messages again) d seen)
            ∙ ap (λ xs. (length messages, xs, d)) (drop_all d.steps),
      )
