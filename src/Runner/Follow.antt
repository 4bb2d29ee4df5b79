-- ===== src/Runner/Follow.antt =====
-- ActivityFeed of core/runner/activity.py, and `activity` of core/runner/service.py: where the
-- frames of a turn come from, the live turn or the table.
pub mod Agrees
mod Tests
use git_agent.Base.{
  Bool, true, false, Option, none, some, List, ℤ, not, is_some, ◌||◌, Dict, get, put, if◌then◌else◌,
  int_eq, option_eq, ◌==◌,
}
use git_agent.Value.{Fields}
use git_agent.Runner.Feed.{ActivityTurn, open_turn}
use git_agent.Hub.Activity.{ActivityRow, list_activity}

-- A turn and its `event_id`.
pub record TurnOfEvent : Type 0 where
  pub event_id : Option ℤ
  pub turn : ActivityTurn Fields

-- `_turns`
abbrev pub ActivityFeed : Type 0
ActivityFeed = Dict ℤ TurnOfEvent

unfoldable pub begin_turn : ℤ → Option ℤ → ActivityFeed → ActivityFeed
begin_turn i e feed = put i (record { event_id = e; turn = open_turn }) feed

unfoldable pub not_done : Option TurnOfEvent → Option TurnOfEvent
not_done none = none
not_done (some t) = if t.turn.done then none else some t

unfoldable pub live : ℤ → ActivityFeed → Option TurnOfEvent
live i feed = not_done (get i feed)

-- The reader follows the live turn, or gets frames that were stored.
pub data Activity : Type 0 where
  follows : ActivityTurn Fields → Activity
  stored : List Fields → Activity

unfoldable pub stored_activity : ℤ → Option ℤ → List ActivityRow → Activity
stored_activity i asked rows = stored (list_activity i asked (not (is_some asked)) rows)

unfoldable pub activity_from : Option TurnOfEvent → ℤ → Option ℤ → List ActivityRow → Activity
activity_from none i asked rows = stored_activity i asked rows
activity_from (some t) i asked rows =
    if not (is_some asked) || t.event_id == asked
    then follows t.turn
    else stored_activity i asked rows

unfoldable pub activity : ℤ → Option ℤ → ActivityFeed → List ActivityRow → Activity
activity i asked feed rows = activity_from (live i feed) i asked rows
