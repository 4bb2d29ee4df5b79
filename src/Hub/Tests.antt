-- ===== src/Hub/Tests.antt =====
-- The tables of the hub at concrete rows.
use git_agent.Base.{
  Text, codes, true, false, none, some, List, [], ◌∷◌, ◌≡◌, refl, ◌≤◌, pos, get, nat_eq, list_eq,
  int_eq, option_eq, option_beq, pair_eq,
}
use git_agent.Value.{str, Fields, field, end}
use git_agent.Runner.Event.{Event}
use git_agent.Runner.Turn.{World, done}
use git_agent.Runner.Turn.Journal.{key}
use git_agent.Runner.Feed.Readers.{Step, emitted, subscribed, numbered}
use git_agent.Hub.Instances.{down, Instances, said, is_claimable, claim_row, claim_instance}
use git_agent.Hub.Instances.Exclusive.{
  Operation, claims, releases, registers, perform_all, IsRefused, claim_instance-IsExclusive,
}
use git_agent.Hub.Journal.Once.{turns_run, turns_run-le_one}
use git_agent.Hub.Activity.{ActivityRow, list_activity}
use git_agent.Hub.Activity.Replay.{persist_all, list_activity-two_turns}

-- Runner 1 is known, and instance 7 is down.
abbrev hub : Instances
hub = record {
  runners = (codes "one", record { id = 1; address = codes "http://one"; slots = 2 }) ∷ [];
  next_id = 2;
  rows = (pos 7, record { status = down; runner_id = none }) ∷ [];
}

claimed_first : (claim_instance (pos 7) 1 hub).0 ≡ said (codes "claimed")
unfolding claim_instance claim_row is_claimable get
claimed_first = refl

-- What others do in the meantime.
abbrev meanwhile : List Operation
meanwhile =
    registers (codes "two") (codes "http://two") 1 ∷ claims (pos 7) 2 ∷ releases (pos 7) 2 ∷ []

claim_instance-IsExclusive_example :
    IsRefused (pos 7) 1 2 (perform_all meanwhile (claim_instance (pos 7) 1 hub).1)
claim_instance-IsExclusive_example =
    claim_instance-IsExclusive (pos 7) 1 hub meanwhile 2 claimed_first (refl, (refl, (refl, tt)))
      refl

abbrev push : Event
push = record {
  event_id = pos 1;
  instance_id = pos 7;
  thread_id = codes "t";
  repository_id = pos 3;
  provider = codes "github";
  action = codes "push";
  dedup_key = codes "c";
  commit_sha = some (codes "c");
  ref = none;
  trace_id = [];
  before_sha = none;
  base_sha = none;
  head_sha = none;
  pr_number = none;
  pr_title = none;
  pr_body = none;
  changed_files = [];
}

abbrev world : World
world = record {
  raised_here = true;
  peek = said (codes "held_by_self");
  refusal = none;
  has_context = true;
  chunks = [];
  turn_end = done;
  forwards = λ a. false;
}

turns_run-le_one_example : turns_run (key push) ((world, push) ∷ (world, push) ∷ []) [] ≤ 1
turns_run-le_one_example = turns_run-le_one (key push) ((world, push) ∷ (world, push) ∷ []) []

abbrev frame : Text → Fields
frame kind = field (codes "kind") (str kind) end

-- A turn of another event is in the table already.
abbrev other_rows : List ActivityRow
other_rows =
    record {
      instance_id = pos 7;
      event_id = some (pos 1);
      seq = 1;
      kind = str (codes "x");
      payload = frame (codes "x");
      trace_id = [];
    }
    ∷ []

abbrev steps : List (Step Fields)
steps = subscribed ∷ emitted (frame (codes "b")) ∷ []

-- Two turns of the chat.
abbrev question : List Fields
question = frame (codes "a") ∷ frame (codes "b") ∷ []

list_activity-two_turns_example :
    let table =
      persist_all
        (pos 7)
        none
        (codes "t2")
        (numbered 0 question)
        (persist_all (pos 7) none (codes "t1") (numbered 0 question) other_rows) in
    let mixed =
      frame (codes "a") ∷ frame (codes "a") ∷ frame (codes "b") ∷ frame (codes "b") ∷ [] in
    (list_activity (pos 7) none false table ≡ mixed)
    × (list_activity (pos 7) none true table ≡ mixed)
unfolding option_beq
list_activity-two_turns_example =
    list_activity-two_turns (pos 7) none (codes "t1") (codes "t2") question (frame (codes "a"))
      (frame (codes "b") ∷ []) other_rows refl
