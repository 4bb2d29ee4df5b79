-- ===== src/Runner/Slots.antt =====
-- core/runner/service.py: the slots of a runner, as the steps of `_raise` and `stop_instance`
-- between their awaits. Any interleaving of the tasks is a sequence of these steps.
pub mod Balance
use git_agent.Base.{
  Text, codes, Bool, true, false, Option, none, some, List, [], ◌∷◌, ℕ, zero, suc, ◌+◌, ◌-◌, ◌&&◌,
  ◌||◌, not, ltb, if◌then◌else◌, contains, remove_one, is_some, length, nat_eq, list_eq, option_eq,
  ◌==◌, HasEq, ◌≡◌,
}

-- `ClaimResult`, what the store answers.
pub record ClaimResult : Type 0 where
  pub outcome : Text
  pub holder_address : Option Text

-- The runner's state: the permits left in `_free`, the keys of `_instances`, and the tasks under
-- way: those that have not met their instance raised and wait for a permit, those that hold one and
-- wait for `_raise_lock`, the one that holds the lock, and the stops that have taken their instance
-- out and not yet released it. `lost` counts the permits of the stops that ended with an exception.
pub record Slots : Type 0 where
  pub slots : ℕ
  pub free : ℕ
  pub instances : List ℕ
  pub acquiring : List ℕ
  pub waiting : List ℕ
  pub claiming : Option ℕ
  pub stopping : List ℕ
  pub lost : ℕ

unfoldable pub init : ℕ → Slots
init slots = record {
  slots = slots;
  free = slots;
  instances = [];
  acquiring = [];
  waiting = [];
  claiming = none;
  stopping = [];
  lost = 0;
}

-- `len(self._instances)`
abbrev pub busy : Slots → ℕ
busy s = length s.instances

pub data Action : Type 0 where
  -- `_raise` looks for the instance, which is not raised.
  arrived : ℕ → Action
  -- The task is cancelled while it waits for a permit.
  left : ℕ → Action
  -- `_raise` gets a permit; the instance may have been raised while it waited.
  acquired : ℕ → Action
  -- `_raise` enters the lock and meets the instance raised in the meantime.
  found_raised : ℕ → Action
  -- `_raise` enters the lock and asks the store.
  asked : ℕ → Action
  -- The store answers.
  answered : ClaimResult → Action
  -- The store raises, or the task is cancelled in the lock.
  claim_failed : Action
  -- The task is cancelled while it waits for the lock.
  cancelled : ℕ → Action
  -- `stop_instance` takes the instance out.
  popped : ℕ → Action
  -- The turn has ended and the store has released the instance.
  released : ℕ → Action
  -- The store raised, or the stop was cancelled, before the permit went back.
  release_failed : ℕ → Action

-- `claim.outcome in ("claimed", "held_by_self")`
unfoldable pub is_ours : ClaimResult → Bool
is_ours c = c.outcome == codes "claimed" || c.outcome == codes "held_by_self"

-- `_raise` has not met the instance, and waits for a permit.
unfoldable pub arrive : ℕ → Slots → Slots
arrive id s = record s { acquiring = id ∷ s.acquiring }

-- The wait for a permit is cancelled.
unfoldable pub leave : ℕ → Slots → Slots
leave id s = record s { acquiring = remove_one id s.acquiring }

-- `_raise` after the wait: the permit is taken.
unfoldable pub acquire : ℕ → Slots → Slots
acquire id s = record {
  slots = s.slots;
  free = s.free - 1;
  instances = s.instances;
  acquiring = remove_one id s.acquiring;
  waiting = id ∷ s.waiting;
  claiming = s.claiming;
  stopping = s.stopping;
  lost = s.lost;
}

-- A waiting task ends without an instance: `finally: self._free.release()`.
unfoldable pub give_up : ℕ → Slots → Slots
give_up id s = record {
  slots = s.slots;
  free = s.free + 1;
  instances = s.instances;
  acquiring = s.acquiring;
  waiting = remove_one id s.waiting;
  claiming = s.claiming;
  stopping = s.stopping;
  lost = s.lost;
}

unfoldable pub ask : ℕ → Slots → Slots
ask id s = record {
  slots = s.slots;
  free = s.free;
  instances = s.instances;
  acquiring = s.acquiring;
  waiting = remove_one id s.waiting;
  claiming = some id;
  stopping = s.stopping;
  lost = s.lost;
}

-- The lock is left: with the instance raised and the permit kept, or with the permit given back.
unfoldable pub finish_claim : Bool → ℕ → Slots → Slots
finish_claim raised id s = record {
  slots = s.slots;
  free = if raised then s.free else s.free + 1;
  instances = if raised then id ∷ s.instances else s.instances;
  acquiring = s.acquiring;
  waiting = s.waiting;
  claiming = none;
  stopping = s.stopping;
  lost = s.lost;
}

unfoldable pub pop_instance : ℕ → Slots → Slots
pop_instance id s = record {
  slots = s.slots;
  free = s.free;
  instances = remove_one id s.instances;
  acquiring = s.acquiring;
  waiting = s.waiting;
  claiming = s.claiming;
  stopping = id ∷ s.stopping;
  lost = s.lost;
}

unfoldable pub finish_stop : Bool → ℕ → Slots → Slots
finish_stop ok id s = record {
  slots = s.slots;
  free = if ok then s.free + 1 else s.free;
  instances = s.instances;
  acquiring = s.acquiring;
  waiting = s.waiting;
  claiming = s.claiming;
  stopping = remove_one id s.stopping;
  lost = if ok then s.lost else s.lost + 1;
}

-- The lock is free and the task waits for it.
abbrev pub may_enter : ℕ → Slots → Bool
may_enter id s = contains id s.waiting && not (is_some s.claiming)

abbrev when : Bool → Slots → Option Slots
when b s = if b then some s else none

unfoldable pub leave_lock : Bool → Option ℕ → Slots → Option Slots
leave_lock raised none s = none
leave_lock raised (some id) s = some (finish_claim raised id s)

-- One step; `none` where the step cannot be taken.
unfoldable pub step : Action → Slots → Option Slots
step (arrived id) s = when (not (contains id s.instances)) (arrive id s)
step (left id) s = when (contains id s.acquiring) (leave id s)
step (acquired id) s = when (ltb 0 s.free && contains id s.acquiring) (acquire id s)
step (found_raised id) s = when (may_enter id s && contains id s.instances) (give_up id s)
step (asked id) s = when (may_enter id s && not (contains id s.instances)) (ask id s)
step (answered c) s = leave_lock (is_ours c) s.claiming s
step claim_failed s = leave_lock false s.claiming s
step (cancelled id) s = when (contains id s.waiting) (give_up id s)
step (popped id) s = when (contains id s.instances) (pop_instance id s)
step (released id) s = when (contains id s.stopping) (finish_stop true id s)
step (release_failed id) s = when (contains id s.stopping) (finish_stop false id s)

-- What a runner with `n` slots can come to.
pub data Reachable (n : ℕ) : Slots → Type 0 where
  start : Reachable n (init n)
  next : {s t : Slots} (a : Action) → Reachable n s → step a s ≡ some t → Reachable n t
