-- ===== src/Runner/Stream/Events.antt =====
-- What the frames of a custom event pay for the tasks that they show.
use git_agent.Base.{
  Text, codes, Bool, true, false, Option, none, some, List, [], ◌∷◌, ◌≡◌, refl, arith,
  if◌then◌else◌, get, OnSome, OnSome-bind, OnSome-if, OnSome-holds, nat_eq, list_eq, list_beq,
  option_eq, ◌==◌, or_else,
}
use git_agent.Value.{Value, Fields, null, bool, int, str, arr, obj, other, field_get, truthy}
use git_agent.Runner.WorkLog.{Python, ActivityFrame, frame_of, get_or_null}
use git_agent.Runner.Collector.{
  Collector, terminal_of, on_started, step_frames, on_running, on_terminal, on_task, custom,
  listed_count, unless_null,
}
use git_agent.Runner.Stream.Shown.{
  Pays, IsPlain, Pays-IsPlain, IsPlain-step_frames, Pays-on_started, Pays-working,
  is_queued-set_status, IsPlain-nil, IsPlain-one,
}

-- A frame that ends a task.
IsEnding : Text × Text → Type 0
IsEnding t = ((t.0 == codes "task_started") ≡ false) × ((t.1 == codes "queued") ≡ false)

terminal_of-IsEnding : (dtype : Text) → OnSome IsEnding (terminal_of dtype)
unfolding terminal_of IsEnding codes list_beq
terminal_of-IsEnding dtype =
    first (dtype == codes "task_completed") (dtype == codes "task_failed")
      (dtype == codes "task_timed_out") (dtype == codes "task_cancelled")
  where
    first :
        (a b c d : Bool)
        → OnSome IsEnding (
            if a
            then some (codes "task_finished", codes "done")
            else (if b
                then some (codes "task_failed", codes "failed")
                else (if c
                    then some (codes "task_failed", codes "timeout")
                    else (if d then some (codes "task_failed", codes "failed") else none))))
    first true b c d = (refl, refl)
    first false true c d = (refl, refl)
    first false false true d = (refl, refl)
    first false false false true = (refl, refl)
    first false false false false = tt

module _ (id : Text) where
  either-Pays :
      (b : Bool) (c : Collector) (x y : Collector × List ActivityFrame)
      → (b ≡ true → Pays id c x)
      → Pays id c y
      → Pays id c (if b then x else y)
  either-Pays true c x y hx hy = hx refl
  either-Pays false c x y hx hy = hy

  Pays-on_running :
      (p : Python) (c : Collector) (id' : Text) (d : Fields)
      → OnSome (Pays id c) (on_running p c id' d)
  unfolding on_running
  Pays-on_running p c id' d = OnSome-bind (Pays id c) (step_frames p id' d) _ (λ fs e.
      let plain = OnSome-holds IsPlain _ fs (IsPlain-step_frames p id' d) e in
      either-Pays (get id' c.tasks == some (codes "queued")) c _ _
        (λ q. Pays-working id id' c fs q plain) (Pays-IsPlain id c c fs plain refl))

  Pays-on_terminal :
      (c : Collector) (id' : Text) (d : Fields) (o : Option (Text × Text))
      → OnSome IsEnding o
      → Pays id c (on_terminal c id' d o)
  unfolding on_terminal IsEnding frame_of
  Pays-on_terminal c id' d none h = Pays-IsPlain id c c [] IsPlain-nil refl
  Pays-on_terminal c id' d (some (kind, status)) h =
      let plain =
        IsPlain-one
          (record (frame_of kind) {
            task_id = some id';
            status = some status;
            description = unless_null (get_or_null (codes "error") d);
            findings_count = listed_count (get_or_null (codes "findings") d);
          })
          h.0 in
      let w = plain (codes "working") id in
      let q = plain (codes "queued") id in
      let k = is_queued-set_status id id' status c in
      let other_status = h.1 in ground (arith, w, q, k, other_status)

  Pays-on_task :
      (p : Python) (c : Collector) (dtype id' : Text) (d : Fields)
      → OnSome (Pays id c) (on_task p c dtype id' d)
  unfolding on_task
  Pays-on_task p c dtype id' d =
      OnSome-if (Pays id c) (dtype == codes "task_started") (some (on_started c id' d)) _
        (Pays-on_started id id' c d)
        (OnSome-if (Pays id c) (dtype == codes "task_running") (on_running p c id' d)
          (some (on_terminal c id' d (terminal_of dtype))) (Pays-on_running p c id' d)
          (Pays-on_terminal c id' d (terminal_of dtype) (terminal_of-IsEnding dtype)))

  -- Nothing happens, or an exception.
  pub Pays-nothing :
      (b : Bool) (c : Collector) → OnSome (Pays id c) (if b then none else some (c, []))
  Pays-nothing true c = tt
  Pays-nothing false c = Pays-IsPlain id c c [] IsPlain-nil refl

  pub Pays-custom : (p : Python) (c : Collector) (d : Fields) → OnSome (Pays id c) (custom p c d)
  unfolding custom
  Pays-custom p c d = by_id (get_or_null (codes "task_id") d)
    where
      by_id :
          (v : Value)
          → OnSome (Pays id c) (elim v [
            | str (x ∷ id') ↦
                on_task p c (p.str_of (or_else (field_get (codes "type") d) (str []))) (x ∷ id') d
            | w ↦ if truthy w then none else some (c, [])
          ])
      by_id (str (x ∷ id')) = Pays-on_task p c _ (x ∷ id') d
      by_id (str []) = Pays-nothing (truthy (str [])) c
      by_id null = Pays-nothing (truthy null) c
      by_id (bool b) = Pays-nothing (truthy (bool b)) c
      by_id (int n) = Pays-nothing (truthy (int n)) c
      by_id (arr vs) = Pays-nothing (truthy (arr vs)) c
      by_id (obj e) = Pays-nothing (truthy (obj e)) c
      by_id (other s) = Pays-nothing (truthy (other s)) c
