-- ===== src/Hub/Instances.antt =====
-- hub_store.py: which runner holds an instance. The tables are hub.runners and hub.agent_instances,
-- whose status is `down` or `running`.
pub mod Exclusive
use git_agent.Base.{
  Text, codes, Bool, true, false, Option, none, some, List, [], ◌∷◌, ℕ, suc, ◌||◌, ◌&&◌, ℤ, Dict,
  get, put, ◌>>=◌, if◌then◌else◌, nat_eq, list_eq, option_eq, int_eq, ◌==◌,
}
use git_agent.Runner.Slots.{ClaimResult}

pub data Status : Type 0 where
  down : Status
  running : Status

abbrev pub is_down : Status → Bool
is_down down = true
is_down running = false

pub record InstanceRow : Type 0 where
  pub status : Status
  pub runner_id : Option ℕ

-- By its name, which is unique.
pub record RunnerRow : Type 0 where
  pub id : ℕ
  pub address : Text
  pub slots : ℕ

pub record Instances : Type 0 where
  pub runners : Dict Text RunnerRow
  pub next_id : ℕ
  pub rows : Dict ℤ InstanceRow

unfoldable pub upserted : ℕ → Text → ℕ → Option RunnerRow → RunnerRow
upserted next address slots none = record { id = next; address = address; slots = slots }
upserted next address slots (some r) = record { id = r.id; address = address; slots = slots }

-- `INSERT … ON CONFLICT (name) DO UPDATE …`. A number is drawn in any case.
unfoldable pub register_runner : Text → Text → ℕ → Instances → ℕ × Instances
register_runner name address slots t =
    let row = upserted t.next_id address slots (get name t.runners) in
    (row.id, record { runners = put name row t.runners; next_id = suc t.next_id; rows = t.rows })

-- The address of the runner with this number.
unfoldable pub address_in : ℕ → Dict Text RunnerRow → Option Text
address_in r [] = none
address_in r ((name, row) ∷ rows) = if row.id == r then some row.address else address_in r rows

-- `LEFT JOIN hub.runners r ON r.id = i.runner_id`
unfoldable pub holder_address : Option ℕ → Instances → Option Text
holder_address none t = none
holder_address (some r) t = address_in r t.runners

abbrev pub said : Text → ClaimResult
said outcome = record { outcome = outcome; holder_address = none }

abbrev pub held_by_other : Option Text → ClaimResult
held_by_other address = record { outcome = codes "held_by_other"; holder_address = address }

abbrev pub with_row : ℤ → InstanceRow → Instances → Instances
with_row id row t = record t { rows = put id row t.rows }

-- `status = 'down' OR runner_id = %s`
unfoldable pub is_claimable : ℕ → InstanceRow → Bool
is_claimable r row = is_down row.status || row.runner_id == some r

unfoldable pub claim_row : ℤ → ℕ → Option InstanceRow → Instances → ClaimResult × Instances
claim_row id r none t = (said (codes "missing"), t)
claim_row id r (some row) t =
    if is_claimable r row
    then (said (codes "claimed"), with_row id (record { status = running; runner_id = some r }) t)
    else (held_by_other (holder_address row.runner_id t), t)

unfoldable pub claim_instance : ℤ → ℕ → Instances → ClaimResult × Instances
claim_instance id r t = claim_row id r (get id t.rows) t

unfoldable pub peek_row : ℕ → Option InstanceRow → Instances → ClaimResult
peek_row r none t = said (codes "missing")
peek_row r (some row) t =
    if is_down row.status
    then said (codes "free")
    else (if row.runner_id == some r
        then said (codes "held_by_self")
        else held_by_other (holder_address row.runner_id t))

unfoldable pub peek_holder : ℤ → ℕ → Instances → ClaimResult
peek_holder id r t = peek_row r (get id t.rows) t

unfoldable pub release_row : ℤ → ℕ → Option InstanceRow → Instances → Bool × Instances
release_row id r none t = (false, t)
release_row id r (some row) t =
    if row.runner_id == some r && (if is_down row.status then false else true)
    then (true, with_row id (record { status = down; runner_id = none }) t)
    else (false, t)

unfoldable pub release_instance : ℤ → ℕ → Instances → Bool × Instances
release_instance id r t = release_row id r (get id t.rows) t
