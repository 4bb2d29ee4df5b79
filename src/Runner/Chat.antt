-- ===== src/Runner/Chat.antt =====
-- core/runner/service.py: what `chat` does with one message, as the list of its effects.
pub mod Frames
use git_agent.Base.{
  Text, codes, Bool, true, false, Option, none, some, List, [], ◌∷◌, ◌++◌, map, if◌then◌else◌,
}
use git_agent.Runner.Slots.{ClaimResult}
use git_agent.Runner.Turn.{
  Frame, run_started, chunk, run_finished, run_failed, chat_user, chat_agent, Effect, asked_slot,
  touched, opened, emitted, executed, closed,
}

-- How the stream of the executor ends: with the reply of the agent, if it has one, cancelled, or
-- with an exception.
pub data ChatEnd : Type 0 where
  replied : Option Text → ChatEnd
  chat_cancelled : ChatEnd
  chat_failed : Text → ChatEnd

-- What the components answer while one message is handled.
pub record ChatWorld : Type 0 where
  pub refusal : Option ClaimResult
  pub has_context : Bool
  pub chunks : List Text
  pub chat_end : ChatEnd

-- How the generator ends.
pub data ChatOutcome : Type 0 where
  finishes : ChatOutcome
  unavailable : Text → ChatOutcome
  raises_error : Text → ChatOutcome
  raises_cancel : ChatOutcome

unfoldable pub reply_frames : Option Text → List Effect
reply_frames none = []
reply_frames (some reply) = emitted (chat_agent reply) ∷ []

-- The `except`, `else` and `finally` clauses, and what follows them.
unfoldable pub end_chat : ChatEnd → List Effect × ChatOutcome
end_chat (replied reply) =
    (reply_frames reply ++ emitted run_finished ∷ closed ∷ touched ∷ [], finishes)
end_chat chat_cancelled = (closed ∷ [], raises_cancel)
end_chat (chat_failed why) = (emitted (run_failed why) ∷ closed ∷ [], raises_error why)

abbrev pub chat_start : Text → List Effect
chat_start message =
    touched ∷ opened ∷ emitted run_started ∷ emitted (chat_user message) ∷ executed ∷ []

unfoldable pub chat_locked : Text → ChatWorld → List Effect × ChatOutcome
chat_locked message w =
    let end = end_chat w.chat_end in
    if w.has_context
    then (chat_start message ++ (map (λ t. emitted (chunk t)) w.chunks ++ end.0), end.1)
    else (touched ∷ [], unavailable (codes "context missing"))

unfoldable pub chat_raised : Text → ChatWorld → Option ClaimResult → List Effect × ChatOutcome
chat_raised message w (some c) = (asked_slot ∷ [], unavailable c.outcome)
chat_raised message w none = let turn = chat_locked message w in (asked_slot ∷ turn.0, turn.1)

unfoldable pub chat : Text → ChatWorld → List Effect × ChatOutcome
chat message w = chat_raised message w w.refusal
