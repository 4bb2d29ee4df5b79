-- ===== src/Hub/Activity.antt =====
-- hub_store.py: the frames of the turns, the table hub.activity.
pub mod Replay
use git_agent.Base.{
  Text, codes, Bool, true, false, Option, none, some, List, [], ◌∷◌, ◌++◌, ℕ, ℤ, ◌&&◌, leb,
  filter_by, get_last?, map, sorted, or_else, if◌then◌else◌, nat_eq, list_eq, int_eq, option_eq,
  ◌==◌,
}
use git_agent.Value.{Value, str, Fields, field_get}

-- The rows stand in the order of their numbers.
pub record ActivityRow : Type 0 where
  pub instance_id : ℤ
  pub event_id : Option ℤ
  pub seq : ℕ
  pub kind : Value
  pub payload : Fields
  pub trace_id : Text

unfoldable pub activity_row : ℤ → Option ℤ → Text → ℕ → Fields → ActivityRow
activity_row instance event trace_id seq frame = record {
  instance_id = instance;
  event_id = event;
  seq = seq;
  kind = or_else (field_get (codes "kind") frame) (str []);
  payload = frame;
  trace_id = trace_id;
}

unfoldable pub add_activity : ℤ → Option ℤ → Text → ℕ → Fields → List ActivityRow → List ActivityRow
add_activity instance event trace_id seq frame rows =
    rows ++ activity_row instance event trace_id seq frame ∷ []

-- `instance_id = %s AND event_id IS NOT DISTINCT FROM …`
abbrev pub is_of : ℤ → Option ℤ → ActivityRow → Bool
is_of instance event row = row.instance_id == instance && row.event_id == event

-- The event of a row, and NULL if there is no row.
abbrev pub event_of : Option ActivityRow → Option ℤ
event_of none = none
event_of (some row) = row.event_id

-- `SELECT event_id … ORDER BY id DESC LIMIT 1`
unfoldable pub last_event : ℤ → List ActivityRow → Option ℤ
last_event instance rows =
    event_of (get_last? (filter_by (λ row. row.instance_id == instance) rows))

-- `ORDER BY seq, id`
unfoldable pub replay_of : ℤ → Option ℤ → List ActivityRow → List Fields
replay_of instance event rows =
    map (λ row. row.payload)
      (sorted (λ a b. leb a.seq b.seq) (filter_by (is_of instance event) rows))

unfoldable pub list_activity : ℤ → Option ℤ → Bool → List ActivityRow → List Fields
list_activity instance event latest rows =
    replay_of instance (if latest then last_event instance rows else event) rows
