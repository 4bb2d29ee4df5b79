-- ===== src/Runner/History/Tests.antt =====
-- The repair of a concrete thread.
use git_agent.Base.{
  Text, codes, Option, none, some, List, [], ◌∷◌, ◌++◌, ◌≡◌, refl, sym, ap, ◌∙◌, subst, inl, inr,
  any_by, map, All, append_assoc, append-nil, if◌then◌else◌, nat_eq, list_eq, option_eq, ◌==◌,
}
use git_agent.Value.{Value, str, end}
use git_agent.Message.{Message, ToolCall, ai, tool, human, system}
use git_agent.Runner.History.{
  Change, append, rewrite_all, repaired_messages, repair_dangling_tool_calls,
}
use git_agent.Runner.History.Added.{HasNoId, message_id}
use git_agent.Runner.History.Update.{
  AreGivenIds, IsGivenId, thread_after, repair_dangling_tool_calls-thread,
}

abbrev call : Text → ToolCall
call id = record { id = some id; name = codes "sandbox_run"; args = end }

-- A turn that was cancelled with one call open and one truncated, and the next user message.
abbrev interrupted : List Message
interrupted =
    ai record {
      id = some (codes "m1");
      content = str (codes "running it ");
      tool_calls = call (codes "a") ∷ [];
      invalid_tool_calls = call (codes "b") ∷ [];
      additional_kwargs = end;
      response_metadata = end;
      usage_metadata = none;
    }
    ∷ human (record { id = none; content = str (codes "go on"); additional_kwargs = end })
    ∷ []

abbrev no_str : Value → Text
no_str v = []

abbrev given_id : Option Text → Option Text
given_id none = some (codes "new")
given_id (some id) = some id

abbrev give_id : Message → Message
give_id (ai m) = ai (record m { id = given_id m.id })
give_id (tool m) = tool (record m { id = given_id m.id })
give_id (human m) = human (record m { id = given_id m.id })
give_id (system m) = system (record m { id = given_id m.id })

-- A message with the id of another replaces it, and other messages are appended.
abbrev merge_one : Option Text → Message → List Message → List Message
merge_one none m xs = xs ++ m ∷ []
merge_one (some id) m xs =
    if any_by (λ x. message_id x == some id) xs
    then map (λ x. if message_id x == some id then m else x) xs
    else xs ++ m ∷ []

abbrev merge : List Message → List Message → List Message
merge xs [] = xs
merge xs (m ∷ ms) = merge (merge_one (message_id m) m xs) ms

abbrev reducer : List Message → Change → List Message
reducer xs (append ys) = map give_id (merge xs ys)
reducer xs (rewrite_all ys) = map give_id ys

merge-HasNoId : (xs ys : List Message) → All HasNoId ys → merge xs ys ≡ xs ++ ys
merge-HasNoId xs [] h = sym (append-nil xs)
merge-HasNoId xs (m ∷ ys) h =
    ap (λ o. merge (merge_one o m xs) ys) h.0
    ∙ merge-HasNoId (xs ++ m ∷ []) ys h.1
    ∙ append_assoc xs (m ∷ []) ys

give_id-IsGivenId : (m : Message) → IsGivenId m (give_id m)
give_id-IsGivenId (ai m) = given m.id refl
  where
    given : (o : Option Text) → m.id ≡ o → IsGivenId (ai m) (give_id (ai m))
    given none e = inr (e, ap (λ i. ai (record m { id = i })) e)
    given (some id) e = inl (ap (λ i. ai (record m { id = i })) (e ∙ sym (ap given_id e)))
give_id-IsGivenId (tool m) = given m.id refl
  where
    given : (o : Option Text) → m.id ≡ o → IsGivenId (tool m) (give_id (tool m))
    given none e = inr (e, ap (λ i. tool (record m { id = i })) e)
    given (some id) e = inl (ap (λ i. tool (record m { id = i })) (e ∙ sym (ap given_id e)))
give_id-IsGivenId (human m) = given m.id refl
  where
    given : (o : Option Text) → m.id ≡ o → IsGivenId (human m) (give_id (human m))
    given none e = inr (e, ap (λ i. human (record m { id = i })) e)
    given (some id) e = inl (ap (λ i. human (record m { id = i })) (e ∙ sym (ap given_id e)))
give_id-IsGivenId (system m) = given m.id refl
  where
    given : (o : Option Text) → m.id ≡ o → IsGivenId (system m) (give_id (system m))
    given none e = inr (e, ap (λ i. system (record m { id = i })) e)
    given (some id) e = inl (ap (λ i. system (record m { id = i })) (e ∙ sym (ap given_id e)))

map-give_id : (ms : List Message) → AreGivenIds ms (map give_id ms)
map-give_id [] = tt
map-give_id (m ∷ ms) = (give_id-IsGivenId m, map-give_id ms)

repair_dangling_tool_calls-thread_example :
    AreGivenIds
      (repaired_messages no_str interrupted).0
      (thread_after reducer interrupted (repair_dangling_tool_calls no_str interrupted).0)
repair_dangling_tool_calls-thread_example =
    repair_dangling_tool_calls-thread reducer
      (λ xs ys h.
        subst (λ zs. AreGivenIds (xs ++ ys) (map give_id zs)) (sym (merge-HasNoId xs ys h))
          (map-give_id (xs ++ ys)))
      (λ xs ys. map-give_id ys) no_str interrupted
