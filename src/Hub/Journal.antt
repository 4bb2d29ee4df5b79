-- ===== src/Hub/Journal.antt =====
-- hub_store.py: the journal of events, the table hub.instance_events.
pub mod Effects
pub mod Once
use git_agent.Base.{
  Text, Bool, true, false, not, Option, none, some, ℤ, Dict, get, put, if◌then◌else◌, nat_eq,
  list_eq, int_eq, pair_eq, HasEq,
}

-- The event of a row, and whether its `processed_at` is set.
pub record EventRow : Type 0 where
  pub event_id : ℤ
  pub processed : Bool

-- The primary key is the instance and the key of the event.
abbrev pub Journal : Type 0
Journal = Dict (ℤ × Text) EventRow

-- `INSERT … ON CONFLICT … DO UPDATE SET dedup_key = EXCLUDED.dedup_key RETURNING processed_at`: a
-- row that is there stays as it is.
unfoldable pub upsert : ℤ × Text → ℤ → Option EventRow → Journal → Bool × Journal
upsert k event_id none j = (true, put k (record { event_id = event_id; processed = false }) j)
upsert k event_id (some row) j = (not row.processed, put k row j)

unfoldable pub begin_event : ℤ × Text → ℤ → Journal → Bool × Journal
begin_event k event_id j = upsert k event_id (get k j) j

unfoldable pub set_processed : ℤ × Text → Option EventRow → Journal → Journal
set_processed k none j = j
set_processed k (some row) j = put k (record { event_id = row.event_id; processed = true }) j

-- `UPDATE … SET processed_at = now()`, which changes nothing where there is no row.
unfoldable pub mark_processed : ℤ × Text → Journal → Journal
mark_processed k j = set_processed k (get k j) j
