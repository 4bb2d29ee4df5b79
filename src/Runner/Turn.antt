-- ===== src/Runner/Turn.antt =====
-- core/runner/service.py: what `_handle_event` does with one event, as the list of its effects.
pub mod Journal
pub mod Frames
use git_agent.Base.{
  Text, codes, Bool, true, false, Option, none, some, List, [], ◌∷◌, ◌++◌, ◌||◌, ◌&&◌, not, map,
  if◌then◌else◌, nat_eq, list_eq, ◌==◌, HasEq,
}
use git_agent.Runner.Event.{Event, has_code_target, is_given}
use git_agent.Runner.Slots.{ClaimResult}

-- An activity frame of the turn.
pub data Frame : Type 0 where
  run_started : Frame
  chunk : Text → Frame
  run_finished : Frame
  run_failed : Text → Frame
  chat_user : Text → Frame
  chat_agent : Text → Frame

-- How `await exec_task` ends: with a result, cancelled by `stop_instance`, with the handler itself
-- cancelled, or with an exception, of which `SandboxNotProvisionedError` is one.
pub data TurnEnd : Type 0 where
  done : TurnEnd
  stopped : TurnEnd
  shut_down : TurnEnd
  not_provisioned : Text → TurnEnd
  failed : Text → TurnEnd

-- What the store, the hub and the executor answer while one event is handled.
pub record World : Type 0 where
  -- `event.instance_id in self._instances`
  pub raised_here : Bool
  pub peek : ClaimResult
  -- the answer of `_raise`: a refusal, or the instance
  pub refusal : Option ClaimResult
  pub has_context : Bool
  -- the chunks of the stream, and the end of the turn
  pub chunks : List Text
  pub turn_end : TurnEnd
  pub forwards : Text → Bool

-- The calls that other components see, in order.
pub data Effect : Type 0 where
  peeked : Effect
  asked_slot : Effect
  began : Effect
  touched : Effect
  opened : Effect
  emitted : Frame → Effect
  executed : Effect
  closed : Effect
  marked : Effect
  forwarded_to : Text → Effect

-- What the handler returns, or the exception that it passes on.
pub data Outcome : Type 0 where
  processed : Outcome
  duplicate : Outcome
  forwarded : Outcome
  dropped : Outcome
  cancelled : Outcome
  skipped_no_commit : Outcome
  raises : Text → Outcome
  raises_cancelled : Outcome

-- `claim.outcome == "held_by_other" and claim.holder_address`
unfoldable pub holder_of : ClaimResult → Option Text
holder_of c =
    if c.outcome == codes "held_by_other" && is_given c.holder_address
    then c.holder_address
    else none

unfoldable pub forward_to : World → Option Text → List Effect × Outcome
forward_to w none = ([], dropped)
forward_to w (some address) =
    (forwarded_to address ∷ [], (if w.forwards address then forwarded else dropped))

unfoldable pub hand_off : World → ClaimResult → List Effect × Outcome
hand_off w c = forward_to w (holder_of c)

-- The `except`, `else` and `finally` clauses of the turn, and what follows them.
unfoldable pub end_turn : TurnEnd → List Effect × Outcome
end_turn done = (emitted run_finished ∷ closed ∷ marked ∷ touched ∷ [], processed)
end_turn stopped = (emitted (run_failed (codes "ход остановлен")) ∷ closed ∷ [], cancelled)
end_turn shut_down = (closed ∷ [], raises_cancelled)
end_turn (not_provisioned why) =
    (emitted (run_failed (codes "sandbox not provisioned: " ++ why)) ∷ closed ∷ [], dropped)
end_turn (failed why) = (emitted (run_failed why) ∷ closed ∷ [], raises why)

-- The turn: from `_begin_turn` on.
unfoldable pub run_turn : World → List Effect × Outcome
run_turn w =
    let end = end_turn w.turn_end in
    (
      opened ∷ emitted run_started ∷ executed ∷ (map (λ t. emitted (chunk t)) w.chunks ++ end.0),
      end.1,
    )

-- Under the instance's lock.
unfoldable pub locked : World → List Effect × Outcome
locked w =
    let turn = run_turn w in
    if w.has_context then (touched ∷ turn.0, turn.1) else (touched ∷ [], dropped)

-- With the instance raised here; `begin` is the answer of `begin_event`.
unfoldable pub with_instance : Bool → World → List Effect × Outcome
with_instance begin w =
    let turn = locked w in
    if begin then (began ∷ turn.0, turn.1) else (began ∷ touched ∷ [], duplicate)

unfoldable pub after_raise : Bool → World → Option ClaimResult → List Effect × Outcome
after_raise begin w (some refusal) = hand_off w refusal
after_raise begin w none = with_instance begin w

-- `peek.outcome in ("held_by_other", "missing")`
unfoldable pub is_elsewhere : ClaimResult → Bool
is_elsewhere c = c.outcome == codes "held_by_other" || c.outcome == codes "missing"

unfoldable pub raise_and_run : Bool → World → List Effect × Outcome
raise_and_run begin w = let run = after_raise begin w w.refusal in (asked_slot ∷ run.0, run.1)

unfoldable pub peek_and_run : Bool → World → List Effect × Outcome
peek_and_run begin w =
    let away = hand_off w w.peek in
    let run = raise_and_run begin w in
    if w.raised_here
    then run
    else (if is_elsewhere w.peek then (peeked ∷ away.0, away.1) else (peeked ∷ run.0, run.1))

unfoldable pub handle_event : Bool → World → Event → List Effect × Outcome
handle_event begin w e =
    if has_code_target e
    then peek_and_run begin w
    else (began ∷ (if begin then marked ∷ [] else []), skipped_no_commit)
