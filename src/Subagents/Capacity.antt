-- ===== src/Subagents/Capacity.antt =====
-- core/subagents/capacity.py: the admission of delegations, as the steps of `slot` between its
-- awaits. Any interleaving of the delegations is a sequence of these steps.
pub mod Bounds
use git_agent.Base.{
  Bool, true, false, Option, none, some, ℕ, zero, suc, ◌+◌, ◌-◌, ◌&&◌, ◌||◌, not, leb, ltb,
  if◌then◌else◌, nat_eq, ◌==◌, ◌≡◌, HasEq,
}

-- The two limits, the value of the semaphore, the counter `_queued`, and how many delegations run.
pub record Capacity : Type 0 where
  pub max_running : ℕ
  pub max_queued : ℕ
  pub free : ℕ
  pub queued : ℕ
  pub running : ℕ

unfoldable pub init : ℕ → ℕ → Capacity
init max_running max_queued = record {
  max_running = max_running;
  max_queued = max_queued;
  free = max_running;
  queued = 0;
  running = 0;
}

pub data Action : Type 0 where
  -- A delegation comes to `slot`: it runs at once, waits, or is rejected.
  comes : Action
  -- `_sem.acquire()` returns to one that waits.
  acquires : Action
  -- One that waits times out, or is cancelled.
  gives_up : Action
  -- One that runs leaves the block, by whatever way.
  leaves : Action

-- `self._sem.locked()`: no permit, or somebody waits for one.
unfoldable pub is_locked : Capacity → Bool
is_locked c = c.free == 0 || ltb 0 c.queued

unfoldable pub with_counts : ℕ → ℕ → ℕ → Capacity → Capacity
with_counts free queued running c = record {
  max_running = c.max_running;
  max_queued = c.max_queued;
  free = free;
  queued = queued;
  running = running;
}

abbrev when : Bool → Capacity → Option Capacity
when b c = if b then some c else none

-- Past the test, `_queued` goes up until `acquire` returns, which it does without a pause if the
-- semaphore is not locked.
unfoldable pub admit : Capacity → Capacity
admit c =
    if is_locked c
    then with_counts c.free (c.queued + 1) c.running c
    else with_counts (c.free - 1) c.queued (c.running + 1) c

-- One step; `none` where the step cannot be taken, or `SubagentCapacityRejected` is raised.
unfoldable pub step : Action → Capacity → Option Capacity
step comes c = when (not (is_locked c && leb c.max_queued c.queued)) (admit c)
step acquires c =
    when (ltb 0 c.queued && ltb 0 c.free)
      (with_counts (c.free - 1) (c.queued - 1) (c.running + 1) c)
step gives_up c = when (ltb 0 c.queued) (with_counts c.free (c.queued - 1) c.running c)
step leaves c = when (ltb 0 c.running) (with_counts (c.free + 1) c.queued (c.running - 1) c)

pub data Reachable (max_running max_queued : ℕ) : Capacity → Type 0 where
  start : Reachable max_running max_queued (init max_running max_queued)
  next :
      {c d : Capacity} (a : Action)
      → Reachable max_running max_queued c
      → step a c ≡ some d
      → Reachable max_running max_queued d
