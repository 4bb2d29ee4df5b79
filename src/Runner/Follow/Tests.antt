-- ===== src/Runner/Follow/Tests.antt =====
-- A turn of the chat with a reader in its middle, on an instance that has had another turn.
use git_agent.Base.{codes, none, some, List, [], ◌∷◌, ◌++◌, ◌≡◌, refl, inl, pos, All, option_beq}
use git_agent.Value.{Fields, str, end, field}
use git_agent.Runner.Feed.{open_turn, close}
use git_agent.Runner.Feed.Readers.{emitted, subscribed, run, frames_of, IsComplete}
use git_agent.Hub.Activity.{ActivityRow}
use git_agent.Hub.Activity.Replay.{persist_all}
use git_agent.Runner.Follow.{activity, follows, stored}
use git_agent.Runner.Follow.Agrees.{with_turn, activity-run}

abbrev frame : Fields
frame = field (codes "kind") (str (codes "chat_user")) end

abbrev answer : Fields
answer = field (codes "kind") (str (codes "chat_agent")) end

abbrev rows : List ActivityRow
rows =
    record {
      instance_id = pos 7;
      event_id = some (pos 3);
      seq = 1;
      kind = str (codes "run_started");
      payload = field (codes "kind") (str (codes "run_started")) end;
      trace_id = [];
    }
    ∷ []

activity-run_example :
    let t = run (emitted frame ∷ []) open_turn in
    let steps = [] ++ subscribed ∷ emitted answer ∷ [] in
    let over = close (run (emitted frame ∷ steps) open_turn) in
    let frames = frame ∷ frames_of steps in
    (activity (pos 7) none (with_turn (pos 7) none t []) rows ≡ follows t)
    × All (IsComplete frames) over.subscribers
    × (activity
          (pos 7)
          none
          (with_turn (pos 7) none over [])
          (persist_all (pos 7) none [] over.persisted rows)
        ≡ stored frames)
unfolding option_beq
activity-run_example =
    activity-run (pos 7) none none [] [] rows frame [] (emitted answer ∷ []) (inl refl) refl
