-- ===== src/Runner/Feed.antt =====
-- core/runner/activity.py: the frames of one turn, their numbers, and the readers that follow it.
pub mod Readers
pub mod Cancelled
use git_agent.Base.{
  Bool, true, false, Option, none, some, List, [], ◌∷◌, ◌++◌, ℕ, suc, map, if◌then◌else◌,
}

-- One call of `stream`: the frames that it found, and all that was put into its queue since.
pub record Reader (F : Type 0) : Type 0 where
  pub snapshot : List F
  pub queue : List (Option F)

-- `ActivityTurn`; `persisted` are the calls of the persistence, in order.
pub record ActivityTurn (F : Type 0) : Type 0 where
  pub done : Bool
  pub seq : ℕ
  pub persisted : List (ℕ × F)
  pub frames : List F
  pub subscribers : List (Reader F)

module _ {F : Type 0} where
  unfoldable pub open_turn : ActivityTurn F
  open_turn = record { done = false; seq = 0; persisted = []; frames = []; subscribers = [] }

  -- `queue.put_nowait(item)`
  abbrev pub put_item : Option F → Reader F → Reader F
  put_item item r = record { snapshot = r.snapshot; queue = r.queue ++ item ∷ [] }

  -- `emit` up to the end of `_persist`: the number is taken, and the call of the persistence made.
  unfoldable pub begin_emit : F → ActivityTurn F → ActivityTurn F
  begin_emit f t = record {
    done = t.done;
    seq = suc t.seq;
    persisted = t.persisted ++ (suc t.seq, f) ∷ [];
    frames = t.frames;
    subscribers = t.subscribers;
  }

  -- `emit` after `_persist`, which is not reached if the task is cancelled in it.
  unfoldable pub end_emit : F → ActivityTurn F → ActivityTurn F
  end_emit f t = record {
    done = t.done;
    seq = t.seq;
    persisted = t.persisted;
    frames = t.frames ++ f ∷ [];
    subscribers = map (put_item (some f)) t.subscribers;
  }

  -- `emit` without a cancellation
  unfoldable pub emit : F → ActivityTurn F → ActivityTurn F
  emit f t = end_emit f (begin_emit f t)

  unfoldable pub close : ActivityTurn F → ActivityTurn F
  close t = record {
    done = true;
    seq = t.seq;
    persisted = t.persisted;
    frames = t.frames;
    subscribers = map (put_item none) t.subscribers;
  }

  -- The start of `stream`: after the end of the turn there is no subscription, and the reader has
  -- only the snapshot.
  unfoldable pub subscribe : ActivityTurn F → ActivityTurn F
  subscribe t = record {
    done = t.done;
    seq = t.seq;
    persisted = t.persisted;
    frames = t.frames;
    subscribers =
        if t.done
        then t.subscribers
        else t.subscribers ++ record { snapshot = t.frames; queue = [] } ∷ [];
  }

  -- The loop of `stream`: the frames that it yields out of the queue, and whether it then ends.
  unfoldable pub drain : List (Option F) → List F × Bool
  drain [] = ([], false)
  drain (none ∷ q) = ([], true)
  drain (some f ∷ q) = let rest = drain q in (f ∷ rest.0, rest.1)

  unfoldable pub stream : Reader F → List F × Bool
  stream r = (r.snapshot ++ (drain r.queue).0, (drain r.queue).1)
