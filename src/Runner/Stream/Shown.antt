-- ===== src/Runner/Stream/Shown.antt =====
-- The frames that show the start of a task, and what the frames of one event pay for them.
use git_agent.Base.{
  Text, codes, Bool, true, false, Option, none, some, List, [], ◌∷◌, ◌++◌, ◌≡◌, refl, ap, ◌∙◌,
  subst, ℕ, ◌+◌, ◌≤◌, ◌&&◌, arith, if◌then◌else◌, ℤ, length, get, get-put, OnSome, OnSome-bind,
  OnSome-if, strip, nat_eq, list_eq, list_beq, option_eq, option_beq, ◌==◌, ==-iff_eq, Bool-cases,
  inl, inr, if_true, filter_by, filter_by-append, length-append,
}
use git_agent.Value.{Value, Fields, null, field_get}
use git_agent.Runner.Content.{is_str, message_text}
use git_agent.Runner.WorkLog.{
  calls_of, tokens_in, get_or_null, Python, ActivityFrame, frame_of, log_frame, text_frames,
  call_frames, result_frames, with_tokens, work,
}
use git_agent.Runner.Collector.{
  unless_null, Collector, init, set_status, on_started, step_frames, working_frame,
}

-- A frame that shows the task as queued, or as working.
abbrev shows : Text → Text → ActivityFrame → Bool
shows status id f =
    f.kind == codes "task_started" && (f.status == some status && f.task_id == some id)

-- How often the frames show the task with this status.
pub times_shown : Text → Text → List ActivityFrame → ℕ
times_shown status id fs = length (filter_by (shows status id) fs)

times_shown-append :
    (status id : Text) (fs gs : List ActivityFrame)
    → times_shown status id (fs ++ gs) ≡ times_shown status id fs + times_shown status id gs
unfolding times_shown
times_shown-append status id fs gs =
    ap length (filter_by-append (shows status id) fs gs) ∙ length-append _ _

-- One, if the task is queued.
pub is_queued : Text → Collector → ℕ
is_queued id c = if get id c.tasks == some (codes "queued") then 1 else 0

-- A step of the collector shows a task as working only by using up that it was queued.
abbrev pub Pays : Text → Collector → Collector × List ActivityFrame → Type 0
Pays id c r =
    times_shown (codes "working") id r.1 + is_queued id r.0
    ≤ times_shown (codes "queued") id r.1 + is_queued id c

-- The frames do not show the start of a task.
abbrev pub IsPlain : List ActivityFrame → Type 0
IsPlain fs = (status id : Text) → times_shown status id fs ≡ 0

is_queued-tasks :
    (id : Text) (c d : Collector) → d.tasks ≡ c.tasks → is_queued id d ≡ is_queued id c
unfolding is_queued
is_queued-tasks id c d e = ap (λ t. if get id t == some (codes "queued") then 1 else 0) e

pub Pays-IsPlain :
    (id : Text) (c d : Collector) (fs : List ActivityFrame)
    → IsPlain fs
    → d.tasks ≡ c.tasks
    → Pays id c (d, fs)
Pays-IsPlain id c d fs h e =
    omega (arith, h (codes "working") id, h (codes "queued") id, is_queued-tasks id c d e)

pub IsPlain-one : (f : ActivityFrame) → (f.kind == codes "task_started") ≡ false → IsPlain (f ∷ [])
unfolding times_shown
IsPlain-one f h status id = rw h

pub IsPlain-append : (fs gs : List ActivityFrame) → IsPlain fs → IsPlain gs → IsPlain (fs ++ gs)
IsPlain-append fs gs hf hg status id =
    omega (arith, times_shown-append status id fs gs, hf status id, hg status id)

pub IsPlain-nil : IsPlain []
unfolding times_shown
IsPlain-nil status id = refl

IsPlain-call_frames :
    (p : Python) (task_id : Option Text) (cs : List Fields) → IsPlain (call_frames p task_id cs)
unfolding call_frames log_frame frame_of codes list_beq times_shown
IsPlain-call_frames p task_id [] status id = refl
IsPlain-call_frames p task_id (c ∷ cs) status id = IsPlain-call_frames p task_id cs status id

IsPlain-text_frames : (task_id : Option Text) (t : Text) → IsPlain (text_frames task_id t)
unfolding text_frames log_frame frame_of codes list_beq times_shown
IsPlain-text_frames task_id [] status id = refl
IsPlain-text_frames task_id (c ∷ t) status id = refl

IsPlain-result_frames :
    (p : Python) (task_id : Option Text) (r : Option (Value × Value))
    → IsPlain (result_frames p task_id r)
unfolding result_frames log_frame frame_of codes list_beq times_shown
IsPlain-result_frames p task_id none status id = refl
IsPlain-result_frames p task_id (some r) status id = refl

length-if :
    (b : Bool) (f g : ActivityFrame) (fs : List ActivityFrame)
    → length (if b then f ∷ fs else fs) ≡ length (if b then g ∷ fs else fs)
length-if true f g fs = refl
length-if false f g fs = refl

IsPlain-with_tokens :
    (task_id : Option Text) (t : Option (ℤ × ℤ)) (fs : List ActivityFrame)
    → IsPlain fs
    → IsPlain (with_tokens task_id t fs)
unfolding with_tokens log_frame frame_of codes list_beq times_shown
IsPlain-with_tokens task_id none fs h status id = h status id
IsPlain-with_tokens task_id (some t) [] h status id = refl
IsPlain-with_tokens task_id (some t) (f ∷ fs) h status id =
    length-if (shows status id f) (record f { tokens = some t }) f _ ∙ h status id

pub IsPlain-work :
    (p : Python) (task_id : Option Text) (text calls : Value) (r : Option (Value × Value))
    (usage : Value)
    → OnSome IsPlain (work p task_id text calls r usage)
unfolding work
IsPlain-work p task_id text calls r usage = OnSome-bind IsPlain (calls_of calls) _ (λ cs e1.
    OnSome-bind IsPlain (tokens_in p usage) _ (λ t e2. IsPlain-with_tokens task_id t _ (
      IsPlain-append (text_frames task_id (strip (message_text p.str_of text))) _
        (IsPlain-text_frames task_id _)
        (IsPlain-append (call_frames p task_id cs) _ (IsPlain-call_frames p task_id cs)
          (IsPlain-result_frames p task_id r)))))

pub Pays-append :
    (id : Text) (c : Collector) (x y : Collector × List ActivityFrame)
    → Pays id c x
    → Pays id x.0 y
    → Pays id c (y.0, x.1 ++ y.1)
Pays-append id c x y hx hy = omega (
  arith,
  times_shown-append (codes "working") id x.1 y.1,
  times_shown-append (codes "queued") id x.1 y.1,
)

pub is_queued-set_status :
    (id id' status : Text) (c : Collector)
    → is_queued id (set_status id' status c)
      ≡ (if id' == id then (if status == codes "queued" then 1 else 0) else is_queued id c)
unfolding is_queued list_beq option_beq
is_queued-set_status id id' status c =
    ap (λ o. if o == some (codes "queued") then 1 else 0) (get-put id' id status c.tasks)
    ∙ either (id' == id) status (get id c.tasks)
  where
    either :
        (b : Bool) (s : Text) (o : Option Text)
        → (if (if b then some s else o) == some (codes "queued") then 1 else 0)
          ≡ if◌then◌else◌ {A = ℕ} b
              (if s == codes "queued" then 1 else 0)
              (if o == some (codes "queued") then 1 else 0)
    either true s o = refl
    either false s o = refl

-- A frame that shows the start of a task.
abbrev start_frame : Text → Text → Option Value → ActivityFrame
start_frame status id description = record (frame_of (codes "task_started")) {
  task_id = some id;
  description = description;
  status = some status;
}

if-length :
    (b : Bool) (f : ActivityFrame) → length (if b then f ∷ [] else []) ≡ (if b then 1 else 0)
if-length true f = refl
if-length false f = refl

times_shown-start_frame :
    (status id id' s : Text) (v : Option Value)
    → times_shown status id (start_frame s id' v ∷ []) ≡ (if s == status && id' == id then 1 else 0)
unfolding times_shown frame_of codes list_beq option_beq
times_shown-start_frame status id id' s v = if-length (s == status && id' == id) _

pub Pays-on_started : (id id' : Text) (c : Collector) (d : Fields) → Pays id c (on_started c id' d)
unfolding on_started codes list_beq
Pays-on_started id id' c d =
    let v = unless_null (get_or_null (codes "description") d) in
    let w = times_shown-start_frame (codes "working") id id' (codes "queued") v in
    let q = times_shown-start_frame (codes "queued") id id' (codes "queued") v in
    let k = is_queued-set_status id id' (codes "queued") c in ground (arith, w, q, k)

pub IsPlain-step_frames :
    (p : Python) (id : Text) (d : Fields) → OnSome IsPlain (step_frames p id d)
unfolding step_frames
IsPlain-step_frames p id d =
    let name = get_or_null (codes "tool_name") d in
    let text = get_or_null (codes "text") d in
    let calls = get_or_null (codes "tool_calls") d in
    let usage = get_or_null (codes "usage") d in
    let ai_step = work p (some id) text calls none usage in
    let is_ai = is_str (codes "ai") (field_get (codes "kind") d) in
    OnSome-if IsPlain (is_str (codes "tool") (field_get (codes "kind") d)) _
      (if is_ai then ai_step else some [])
      (IsPlain-work p (some id) null null (some (name, text)) null)
      (OnSome-if IsPlain is_ai ai_step (some []) (IsPlain-work p (some id) text calls none usage)
        IsPlain-nil)

is_queued-one :
    (id id' : Text) (c : Collector)
    → (get id' c.tasks == some (codes "queued")) ≡ true
    → (id' == id) ≡ true
    → is_queued id c ≡ 1
unfolding is_queued
is_queued-one id id' c h e =
    if_true _ _ _
      (subst (λ j. (get j c.tasks == some (codes "queued")) ≡ true) ((==-iff_eq id' id).0 e) h)

-- The first step of a queued task.
pub Pays-working :
    (id id' : Text) (c : Collector) (fs : List ActivityFrame)
    → (get id' c.tasks == some (codes "queued")) ≡ true
    → IsPlain fs
    → Pays id c (set_status id' (codes "working") c, working_frame id' ∷ fs)
unfolding working_frame codes list_beq frame_of
Pays-working id id' c fs queued h =
    let w = times_shown-start_frame (codes "working") id id' (codes "working") none in
    let q = times_shown-start_frame (codes "queued") id id' (codes "working") none in
    let k = is_queued-set_status id id' (codes "working") c in
    let aw =
      times_shown-append (codes "working") id (start_frame (codes "working") id' none ∷ []) fs in
    let aq =
      times_shown-append (codes "queued") id (start_frame (codes "working") id' none ∷ []) fs in
    let hw = h (codes "working") id in
    let hq = h (codes "queued") id in
    elim (Bool-cases (id' == id)) [
      | inl e ↦ let was = is_queued-one id id' c queued e in ground (arith, w, q, k, aw, aq, hw, hq)
      | inr e ↦ ground (arith, w, q, k, aw, aq, hw, hq)
    ]

pub is_queued-init : (id : Text) → is_queued id init ≡ 0
unfolding is_queued init get option_beq
is_queued-init id = refl
