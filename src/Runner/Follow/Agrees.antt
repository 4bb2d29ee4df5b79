-- ===== src/Runner/Follow/Agrees.antt =====
-- A reader of a turn gets the same frames during the turn and after it.
use git_agent.Base.{
  Text, Bool, true, false, Option, none, some, List, [], ◌∷◌, ◌++◌, ◌≡◌, refl, ap, ◌∙◌, ◌⊎◌, inl,
  inr, ℤ, All, filter_by, get, put, get-put, is_some, not, ◌||◌, if_true, if_false, int_eq,
  option_eq, ◌==◌, ==_refl,
}
use git_agent.Value.{Fields}
use git_agent.Runner.Feed.{ActivityTurn, open_turn, close}
use git_agent.Runner.Feed.Readers.{
  Step, emitted, subscribed, run, frames_of, IsComplete, run-done, close-run-All-IsComplete,
}
use git_agent.Hub.Activity.{ActivityRow, is_of, list_activity}
use git_agent.Hub.Activity.Replay.{persist_all, list_activity-run}
use git_agent.Runner.Follow.{
  ActivityFeed, not_done, live, follows, stored, stored_activity, activity_from, activity,
}

-- The feed with the turn of the instance as it has become.
abbrev pub with_turn : ℤ → Option ℤ → ActivityTurn Fields → ActivityFeed → ActivityFeed
with_turn i e t feed = put i (record { event_id = e; turn = t }) feed

module _ (i : ℤ) (e asked : Option ℤ) (feed : ActivityFeed) (rows : List ActivityRow) where
  get-with_turn :
      (t : ActivityTurn Fields)
      → get i (with_turn i e t feed) ≡ some (record { event_id = e; turn = t })
  get-with_turn t = get-put i i _ feed ∙ if_true (i == i) _ _ (==_refl i)

  is_asked : (asked ≡ none) ⊎ (asked ≡ e) → (not (is_some asked) || e == asked) ≡ true
  is_asked (inl h) = ap (λ a. not (is_some a) || e == a) h
  is_asked (inr h) = either (is_some asked)
    where
      either : (b : Bool) → (not b || e == asked) ≡ true
      either true = ap (λ a. e == a) h ∙ ==_refl e
      either false = refl

  -- While the turn goes on, the reader follows it.
  activity-open :
      (t : ActivityTurn Fields)
      → t.done ≡ false
      → (asked ≡ none) ⊎ (asked ≡ e)
      → activity i asked (with_turn i e t feed) rows ≡ follows t
  unfolding activity live not_done activity_from
  activity-open t d h =
      ap (λ o. activity_from (not_done o) i asked rows) (get-with_turn t)
      ∙ ap (λ o. activity_from o i asked rows) (if_false t.done _ _ d)
      ∙ if_true _ _ _ (is_asked h)

  -- Once the turn is over, the table is asked.
  activity-done :
      (t : ActivityTurn Fields)
      → t.done ≡ true
      → activity i asked (with_turn i e t feed) rows ≡ stored_activity i asked rows
  unfolding activity live not_done activity_from
  activity-done t d =
      ap (λ o. activity_from (not_done o) i asked rows) (get-with_turn t)
      ∙ ap (λ o. activity_from o i asked rows) (if_true t.done _ _ d)

-- The frames that are stored of a turn, asked for by its event or as the latest.
stored_activity-run :
    (i : ℤ) (e asked : Option ℤ) (trace : Text) (f : Fields) (steps : List (Step Fields))
    (rows : List ActivityRow)
    → (asked ≡ none) ⊎ (asked ≡ e)
    → filter_by (is_of i e) rows ≡ []
    → stored_activity i asked
        (persist_all i e trace (close (run (emitted f ∷ steps) open_turn)).persisted rows)
      ≡ stored (f ∷ frames_of steps)
unfolding stored_activity
stored_activity-run i e none trace f steps rows h fresh =
    ap stored (list_activity-run i e trace f steps rows fresh).1
stored_activity-run i e (some x) trace f steps rows (inl h) fresh = cc
stored_activity-run i e (some x) trace f steps rows (inr h) fresh =
    let table = persist_all i e trace (close (run (emitted f ∷ steps) open_turn)).persisted rows in
    ap (λ o. stored (list_activity i o false table)) h
    ∙ ap stored (list_activity-run i e trace f steps rows fresh).0

-- A reader that asks for a turn that has emitted a frame, by its event or as the latest turn of the
-- instance: while the turn goes on the reader follows it, and once the turn is closed every reader
-- has got all its frames, those from before it came included. A reader that asks after the end gets
-- the same frames from the table, if all of them could be stored and no earlier turn had that event.
pub activity-run :
    (i : ℤ) (e asked : Option ℤ) (trace : Text) (feed : ActivityFeed) (rows : List ActivityRow)
    (f : Fields) (before after : List (Step Fields))
    → (asked ≡ none) ⊎ (asked ≡ e)
    → filter_by (is_of i e) rows ≡ []
    → let t = run (emitted f ∷ before) open_turn in
      let steps = before ++ subscribed ∷ after in
      let over = close (run (emitted f ∷ steps) open_turn) in
      let frames = f ∷ frames_of steps in
      (activity i asked (with_turn i e t feed) rows ≡ follows t)
      × All (IsComplete frames) over.subscribers
      × (activity i asked (with_turn i e over feed) (persist_all i e trace over.persisted rows)
          ≡ stored frames)
unfolding close
activity-run i e asked trace feed rows f before after h fresh =
    let steps = before ++ subscribed ∷ after in
    let over = close (run (emitted f ∷ steps) open_turn) in
    (
      activity-open i e asked feed rows (run (emitted f ∷ before) open_turn)
          (run-done (emitted f ∷ before)) h,
      (close-run-All-IsComplete (emitted f ∷ steps)).0,
      activity-done i e asked feed (persist_all i e trace over.persisted rows) over refl
          ∙ stored_activity-run i e asked trace f steps rows h fresh,
    )
