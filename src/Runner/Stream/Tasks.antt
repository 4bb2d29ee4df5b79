-- ===== src/Runner/Stream/Tasks.antt =====
-- The status of a task in the frames of a turn.
use git_agent.Base.{
  Text, codes, Bool, true, false, none, some, List, [], ◌∷◌, ◌>>=◌, ◌≡◌, refl, ◌≤◌, arith,
  if◌then◌else◌, OnSome, OnSome-bind, OnSome-if, OnSome-holds, nat_eq, list_eq, list_beq, option_eq,
  ◌==◌,
}
use git_agent.Value.{
  Value, Values, Fields, null, bool, int, str, arr, obj, other, nil, cons, end, field, field_get,
  truthy,
}
use git_agent.Runner.Content.{is_str}
use git_agent.Runner.WorkLog.{Python, ActivityFrame, frame_of, get_or_null, calls_of, work}
use git_agent.Runner.Collector.{Collector, init, custom}
use git_agent.Runner.Stream.{
  on_ai, report_frames, on_tool, on_message, on_messages, messages_of, on_iterable, node_frame,
  updates, frames, frames_all,
}
use git_agent.Runner.Stream.Events.{Pays-custom, Pays-nothing}
use git_agent.Runner.Stream.Shown.{
  times_shown, is_queued-init, Pays, IsPlain, Pays-IsPlain, IsPlain-work, Pays-append, IsPlain-nil,
  IsPlain-one,
}

IsPlain-node_frame : (c : Collector) (node : Text) → IsPlain (node_frame c node ∷ [])
unfolding node_frame frame_of codes list_beq
IsPlain-node_frame c node = IsPlain-one _ refl

module _ (id : Text) where
  Pays-on_ai : (p : Python) (c : Collector) (m : Fields) → OnSome (Pays id c) (on_ai p c m)
  unfolding on_ai
  Pays-on_ai p c m =
      let content = get_or_null (codes "content") m in
      let calls = get_or_null (codes "tool_calls") m in
      let usage = get_or_null (codes "usage_metadata") m in
      OnSome-bind (Pays id c) (calls_of calls) _ (λ cs e1.
        OnSome-bind (Pays id c) (work p none content calls none usage) _ (λ fs e2.
          Pays-IsPlain id c _ fs
            (OnSome-holds IsPlain _ fs (IsPlain-work p none content calls none usage) e2) refl))

  IsPlain-nothing : (b : Bool) → OnSome IsPlain (if b then none else some [])
  IsPlain-nothing true = tt
  IsPlain-nothing false = IsPlain-nil

  IsPlain-report_frames :
      (p : Python) (v content : Value) → OnSome IsPlain (report_frames p v content)
  unfolding report_frames frame_of codes list_beq truthy
  IsPlain-report_frames p (str (x ∷ id')) content = IsPlain-one _ refl
  IsPlain-report_frames p (str []) content = IsPlain-nil
  IsPlain-report_frames p null content = IsPlain-nil
  IsPlain-report_frames p (bool true) content = tt
  IsPlain-report_frames p (bool false) content = IsPlain-nil
  IsPlain-report_frames p (int n) content = IsPlain-nothing (truthy (int n))
  IsPlain-report_frames p (arr vs) content = IsPlain-nothing (truthy (arr vs))
  IsPlain-report_frames p (obj e) content = IsPlain-nothing (truthy (obj e))
  IsPlain-report_frames p (other s) content = tt

  IsPlain-on_tool : (p : Python) (m : Fields) → OnSome IsPlain (on_tool p m)
  unfolding on_tool
  IsPlain-on_tool p m =
      let name = get_or_null (codes "name") m in
      let content = get_or_null (codes "content") m in
      let id' = get_or_null (codes "tool_call_id") m in
      OnSome-if IsPlain (is_str (codes "task") (some name)) (report_frames p id' content)
        (work p none null null (some (name, content)) null) (IsPlain-report_frames p id' content)
        (IsPlain-work p none null null (some (name, content)) null)

  Pays-on_message : (p : Python) (c : Collector) (v : Value) → OnSome (Pays id c) (on_message p c v)
  unfolding on_message
  Pays-on_message p c (obj m) =
      let type = field_get (codes "type") m in
      let result = on_tool p m >>= λ fs. some (c, fs) in
      OnSome-if (Pays id c) (is_str (codes "ai") type) (on_ai p c m) _ (Pays-on_ai p c m) (
        OnSome-if (Pays id c) (is_str (codes "tool") type) result (some (c, []))
          (OnSome-bind (Pays id c) (on_tool p m) _ (λ fs e.
            Pays-IsPlain id c c fs (OnSome-holds IsPlain _ fs (IsPlain-on_tool p m) e) refl))
          (Pays-IsPlain id c c [] IsPlain-nil refl))
  Pays-on_message p c null = Pays-IsPlain id c c [] IsPlain-nil refl
  Pays-on_message p c (bool b) = Pays-IsPlain id c c [] IsPlain-nil refl
  Pays-on_message p c (int n) = Pays-IsPlain id c c [] IsPlain-nil refl
  Pays-on_message p c (str s) = Pays-IsPlain id c c [] IsPlain-nil refl
  Pays-on_message p c (arr vs) = Pays-IsPlain id c c [] IsPlain-nil refl
  Pays-on_message p c (other s) = Pays-IsPlain id c c [] IsPlain-nil refl

  Pays-on_messages :
      (p : Python) (c : Collector) (vs : Values) → OnSome (Pays id c) (on_messages p c vs)
  unfolding on_messages
  Pays-on_messages p c nil = Pays-IsPlain id c c [] IsPlain-nil refl
  Pays-on_messages p c (cons m ms) = OnSome-bind (Pays id c) (on_message p c m) _ (λ here e1.
      OnSome-bind (Pays id c) (on_messages p here.0 ms) _ (λ rest e2.
        Pays-append id c here rest (OnSome-holds (Pays id c) _ here (Pays-on_message p c m) e1)
          (OnSome-holds (Pays id here.0) _ rest (Pays-on_messages p here.0 ms) e2)))

  Pays-on_iterable :
      (p : Python) (c : Collector) (v : Value) → OnSome (Pays id c) (on_iterable p c v)
  unfolding on_iterable
  Pays-on_iterable p c (arr ms) = Pays-on_messages p c ms
  Pays-on_iterable p c (str s) = Pays-IsPlain id c c [] IsPlain-nil refl
  Pays-on_iterable p c (obj d) = Pays-IsPlain id c c [] IsPlain-nil refl
  Pays-on_iterable p c null = Pays-nothing id (truthy null) c
  Pays-on_iterable p c (bool b) = Pays-nothing id (truthy (bool b)) c
  Pays-on_iterable p c (int n) = Pays-nothing id (truthy (int n)) c
  Pays-on_iterable p c (other s) = Pays-nothing id (truthy (other s)) c

  Pays-updates : (p : Python) (c : Collector) (d : Fields) → OnSome (Pays id c) (updates p c d)
  unfolding updates
  Pays-updates p c end = Pays-IsPlain id c c [] IsPlain-nil refl
  Pays-updates p c (field node update d) =
      OnSome-bind (Pays id c) (on_iterable p c (messages_of update)) _ (λ here e1.
        OnSome-bind (Pays id c) (updates p here.0 d) _ (λ rest e2.
          Pays-append id c here (rest.0, node_frame here.0 node ∷ rest.1)
            (OnSome-holds (Pays id c) _ here (Pays-on_iterable p c (messages_of update)) e1)
            (Pays-append id here.0 (here.0, node_frame here.0 node ∷ []) rest
              (Pays-IsPlain id here.0 here.0 _ (IsPlain-node_frame here.0 node) refl)
              (OnSome-holds (Pays id here.0) _ rest (Pays-updates p here.0 d) e2))))

  Pays-frames :
      (p : Python) (c : Collector) (chunk : Text × Value) → OnSome (Pays id c) (frames p c chunk)
  unfolding frames
  Pays-frames p c (mode, obj d) =
      OnSome-if (Pays id c) (mode == codes "custom") (custom p c d) _ (Pays-custom id p c d) (
        OnSome-if (Pays id c) (mode == codes "updates") (updates p c d) (some (c, []))
          (Pays-updates p c d) (Pays-IsPlain id c c [] IsPlain-nil refl))
  Pays-frames p c (mode, null) = Pays-IsPlain id c c [] IsPlain-nil refl
  Pays-frames p c (mode, bool b) = Pays-IsPlain id c c [] IsPlain-nil refl
  Pays-frames p c (mode, int n) = Pays-IsPlain id c c [] IsPlain-nil refl
  Pays-frames p c (mode, str s) = Pays-IsPlain id c c [] IsPlain-nil refl
  Pays-frames p c (mode, arr vs) = Pays-IsPlain id c c [] IsPlain-nil refl
  Pays-frames p c (mode, other s) = Pays-IsPlain id c c [] IsPlain-nil refl

  Pays-frames_all :
      (p : Python) (c : Collector) (chunks : List (Text × Value))
      → OnSome (Pays id c) (frames_all p c chunks)
  unfolding frames_all
  Pays-frames_all p c [] = Pays-IsPlain id c c [] IsPlain-nil refl
  Pays-frames_all p c (chunk ∷ chunks) = OnSome-bind (Pays id c) (frames p c chunk) _ (λ here e1.
      OnSome-bind (Pays id c) (frames_all p here.0 chunks) _ (λ rest e2.
        Pays-append id c here rest (OnSome-holds (Pays id c) _ here (Pays-frames p c chunk) e1)
          (OnSome-holds (Pays id here.0) _ rest (Pays-frames_all p here.0 chunks) e2)))

-- In all frames of a turn whose chunks raise no exception, a task is shown as working at most as
-- often as it is shown as queued, whatever steps and ends its subagent reports and in which order.
pub frames_all-times_shown :
    (p : Python) (id : Text) (chunks : List (Text × Value)) (r : Collector × List ActivityFrame)
    → frames_all p init chunks ≡ some r
    → times_shown (codes "working") id r.1 ≤ times_shown (codes "queued") id r.1
frames_all-times_shown p id chunks r h =
    let pays = OnSome-holds (Pays id init) _ r (Pays-frames_all id p init chunks) h in
    omega (arith, pays, is_queued-init id)
