-- ===== src/Runner/Turn/Frames.antt =====
-- What every handling of an event leaves behind: the mark in the journal, and the frames.
use git_agent.Base.{
  Text, Bool, true, false, Option, none, some, List, [], ◌∷◌, ◌++◌, ◌≡◌, ◌⊎◌, ◌≤◌, refl, ap, ◌∙◌, ℕ,
  ◌+◌, map, if◌then◌else◌, filter_by, filter_by-append, length, length-append, inl, inr, arith,
}
use git_agent.Runner.Event.{Event, has_code_target}
use git_agent.Runner.Slots.{ClaimResult}
use git_agent.Runner.Turn.{
  run_started, chunk, run_finished, run_failed, TurnEnd, done, stopped, shut_down, not_provisioned,
  failed, World, Effect, opened, emitted, executed, closed, marked, began, Outcome, processed,
  skipped_no_commit, raises_cancelled, forward_to, hand_off, end_turn, run_turn, is_elsewhere,
  locked, with_instance, after_raise, raise_and_run, peek_and_run, handle_event,
}

-- How often the effects say something.
abbrev pub number : (Effect → Bool) → List Effect → ℕ
number p xs = length (filter_by p xs)

abbrev pub is_marked : Effect → Bool
is_marked marked = true
is_marked _ = false

abbrev pub is_executed : Effect → Bool
is_executed executed = true
is_executed _ = false

abbrev pub is_opened : Effect → Bool
is_opened opened = true
is_opened _ = false

abbrev pub is_closed : Effect → Bool
is_closed closed = true
is_closed _ = false

abbrev pub is_start : Effect → Bool
is_start (emitted run_started) = true
is_start _ = false

abbrev pub is_end : Effect → Bool
is_end (emitted run_finished) = true
is_end (emitted (run_failed why)) = true
is_end _ = false

-- Whether an outcome says that the event is settled; a skipped event is, unless it was before.
abbrev pub settles : Bool → Outcome → Bool
settles begin processed = true
settles begin skipped_no_commit = begin
settles begin _ = false

abbrev pub is_processed : Outcome → Bool
is_processed processed = true
is_processed _ = false

abbrev pub one_if : Bool → ℕ
one_if b = if b then 1 else 0

abbrev pub is_shut_down : Outcome → Bool
is_shut_down raises_cancelled = true
is_shut_down _ = false

pub number-append :
    (p : Effect → Bool) (xs ys : List Effect) → number p (xs ++ ys) ≡ number p xs + number p ys
number-append p xs ys = ap length (filter_by-append p xs ys) ∙ length-append _ _

pub number-chunks :
    (p : Effect → Bool) (ts : List Text)
    → ((t : Text) → p (emitted (chunk t)) ≡ false)
    → number p (map (λ t. emitted (chunk t)) ts) ≡ 0
number-chunks p [] h = refl
number-chunks p (t ∷ ts) h = rw (h t) (number-chunks p ts h)

-- The books of one handling: the mark fits the outcome, a turn runs only if the journal let the
-- event in, and every turn that opens starts once, runs once, closes once and ends once, unless
-- the runner itself is shutting down.
abbrev pub IsOrderly : Bool → List Effect × Outcome → Type 0
IsOrderly begin r =
    (number is_marked r.0 ≡ one_if (settles begin r.1))
    × (number is_opened r.0 ≡ number is_executed r.0)
    × (number is_start r.0 ≡ number is_executed r.0)
    × (number is_closed r.0 ≡ number is_executed r.0)
    × (number is_end r.0 + one_if (is_shut_down r.1) ≡ number is_executed r.0)
    × (one_if (is_processed r.1) ≤ number is_executed r.0)
    × ((number is_executed r.0 ≡ 0) ⊎ ((number is_executed r.0 ≡ 1) × (begin ≡ true)))

forward_to-IsOrderly : (b : Bool) (w : World) (o : Option Text) → IsOrderly b (forward_to w o)
unfolding forward_to
forward_to-IsOrderly b w none = (refl, refl, refl, refl, refl, omega arith, inl refl)
forward_to-IsOrderly b w (some a) = ground arith

hand_off-IsOrderly : (b : Bool) (w : World) (c : ClaimResult) → IsOrderly b (hand_off w c)
unfolding hand_off
hand_off-IsOrderly b w c = forward_to-IsOrderly b w _

turn_books :
    (p : Effect → Bool) (w : World)
    → ((t : Text) → p (emitted (chunk t)) ≡ false)
    → number p (run_turn w).0
      ≡ number p (opened ∷ emitted run_started ∷ executed ∷ []) + number p (end_turn w.turn_end).0
unfolding run_turn
turn_books p w h =
    let chunks : List Effect = map (λ t. emitted (chunk t)) w.chunks in
    let end : List Effect = (end_turn w.turn_end).0 in
    omega (
      arith,
      number-append p (opened ∷ emitted run_started ∷ executed ∷ []) (chunks ++ end),
      number-append p chunks end,
      number-chunks p w.chunks h,
    )

outcome-run_turn : (w : World) → (run_turn w).1 ≡ (end_turn w.turn_end).1
unfolding run_turn
outcome-run_turn w = refl

-- The same of the part of the turn from its end on.
EndsOrderly : List Effect × Outcome → Type 0
EndsOrderly r =
    (number is_marked r.0 ≡ one_if (settles true r.1))
    × (number is_opened r.0 ≡ 0)
    × (number is_start r.0 ≡ 0)
    × (number is_closed r.0 ≡ 1)
    × (number is_end r.0 + one_if (is_shut_down r.1) ≡ 1)
    × (number is_executed r.0 ≡ 0)
    × (one_if (is_processed r.1) ≤ 1)

end_turn-EndsOrderly : (e : TurnEnd) → EndsOrderly (end_turn e)
unfolding EndsOrderly end_turn
end_turn-EndsOrderly done = (refl, refl, refl, refl, refl, refl, omega arith)
end_turn-EndsOrderly stopped = (refl, refl, refl, refl, refl, refl, omega arith)
end_turn-EndsOrderly shut_down = (refl, refl, refl, refl, refl, refl, omega arith)
end_turn-EndsOrderly (not_provisioned why) = (refl, refl, refl, refl, refl, refl, omega arith)
end_turn-EndsOrderly (failed why) = (refl, refl, refl, refl, refl, refl, omega arith)

run_turn-IsOrderly : (w : World) → IsOrderly true (run_turn w)
unfolding EndsOrderly
run_turn-IsOrderly w =
    let (m, o, s, c, e, x, p) = end_turn-EndsOrderly w.turn_end in
    let runs : number is_executed (run_turn w).0 ≡ 1 =
      omega (arith, turn_books is_executed w (λ t. refl), x) in
    rw (outcome-run_turn w) (
      omega (arith, turn_books is_marked w (λ t. refl), m),
      omega (arith, runs, turn_books is_opened w (λ t. refl), o),
      omega (arith, runs, turn_books is_start w (λ t. refl), s),
      omega (arith, runs, turn_books is_closed w (λ t. refl), c),
      omega (arith, runs, turn_books is_end w (λ t. refl), e),
      omega (arith, runs, p),
      inr (runs, refl),
    )

either-IsOrderly :
    (b c : Bool) (r q : List Effect × Outcome)
    → IsOrderly b r
    → IsOrderly b q
    → IsOrderly b (if c then r else q)
either-IsOrderly b true r q hr hq = hr
either-IsOrderly b false r q hr hq = hq

locked-IsOrderly : (w : World) → IsOrderly true (locked w)
unfolding locked
locked-IsOrderly w =
    either-IsOrderly true w.has_context _ _ (run_turn-IsOrderly w)
      (refl, refl, refl, refl, refl, omega arith, inl refl)

with_instance-IsOrderly : (b : Bool) (w : World) → IsOrderly b (with_instance b w)
unfolding with_instance
with_instance-IsOrderly true w = locked-IsOrderly w
with_instance-IsOrderly false w = (refl, refl, refl, refl, refl, omega arith, inl refl)

after_raise-IsOrderly :
    (b : Bool) (w : World) (o : Option ClaimResult) → IsOrderly b (after_raise b w o)
unfolding after_raise
after_raise-IsOrderly b w none = with_instance-IsOrderly b w
after_raise-IsOrderly b w (some c) = hand_off-IsOrderly b w c

raise_and_run-IsOrderly : (b : Bool) (w : World) → IsOrderly b (raise_and_run b w)
unfolding raise_and_run
raise_and_run-IsOrderly b w = after_raise-IsOrderly b w w.refusal

peek_and_run-IsOrderly : (b : Bool) (w : World) → IsOrderly b (peek_and_run b w)
unfolding peek_and_run
peek_and_run-IsOrderly b w =
    let run = raise_and_run-IsOrderly b w in
    either-IsOrderly b w.raised_here _ _ run
      (either-IsOrderly b (is_elsewhere w.peek) _ _ (hand_off-IsOrderly b w w.peek) run)

skipped : (b : Bool) → IsOrderly b (began ∷ (if b then marked ∷ [] else []), skipped_no_commit)
skipped true = (refl, refl, refl, refl, refl, omega arith, inl refl)
skipped false = (refl, refl, refl, refl, refl, omega arith, inl refl)

-- However an event is handled: the journal is marked exactly when the outcome is `processed`, or
-- `skipped_no_commit` of an event that was not settled; a turn runs at most once, and only if
-- `begin_event` let the event in; without one the outcome is not `processed`; and every turn that runs is opened, started and closed once and
-- has one final frame, which only the shutdown of the runner takes away.
pub handle_event-IsOrderly : (b : Bool) (w : World) (e : Event) → IsOrderly b (handle_event b w e)
unfolding handle_event
handle_event-IsOrderly b w e =
    either-IsOrderly b (has_code_target e) _ _ (peek_and_run-IsOrderly b w) (skipped b)
