-- ===== src/Hub/Journal/Once.antt =====
-- The runner over the journal of the hub: an event is run to its end at most once.
use git_agent.Base.{
  Text, Bool, true, false, List, [], ◌∷◌, ◌≡◌, refl, sym, ap, ap₂, ◌∙◌, subst, fun_ext, ℕ, ◌+◌, ◌≤◌,
  ℤ, ◌&&◌, get, if◌then◌else◌, if_true, nat_eq, list_eq, int_eq, pair_eq, ◌==◌, ==_refl, arith,
}
use git_agent.Runner.Event.{Event}
use git_agent.Runner.Turn.{World, Effect, Outcome, handle_event}
use git_agent.Runner.Turn.Frames.{is_processed, one_if}
use git_agent.Runner.Turn.Journal.{
  key, marks, delivery, journal_after, turns_finished, turns_finished-le_one,
}
use git_agent.Hub.Journal.{Journal, begin_event}
use git_agent.Hub.Journal.Effects.{
  opens, journal_effects, upsert-answer, handle_event-AsksFirst, opens-journal_effects,
}

-- A delivery to a runner, with the answer and the effects of the hub.
unfoldable pub deliver : World × Event → Journal → (List Effect × Outcome) × Journal
deliver d j =
    let run = handle_event (begin_event (key d.1) d.1.event_id j).0 d.0 d.1 in
    (run, journal_effects d.1 run.0 j)

-- How many deliveries with the key `k` ran a turn to its end.
abbrev pub turns_run : ℤ × Text → List (World × Event) → Journal → ℕ
turns_run k [] j = 0
turns_run k (d ∷ ds) j =
    let (run, j') = deliver d j in
    let rest = turns_run k ds j' in one_if (is_processed run.1 && key d.1 == k) + rest

-- The journal as the answers that it gives, and what a mark makes of them.
abbrev answers : (ℤ × Text → Bool) → ℤ × Text → Bool
answers f = f

abbrev answers_after : (ℤ × Text → Bool) → ℤ × Text → ℤ × Text → Bool
answers_after f k l = if k == l then false else f l

-- The run of a delivery is the one over the answers of the table.
run-deliver :
    (d : World × Event) (j : Journal) → (deliver d j).0 ≡ delivery answers answers_after (opens j) d
unfolding deliver begin_event
run-deliver d j =
    ap (λ b. handle_event b d.0 d.1) (upsert-answer (key d.1) d.1.event_id (get (key d.1) j) j)

-- The table gives the answers of the abstract journal, at every key and after every delivery.
opens-deliver :
    (d : World × Event) (j : Journal)
    → opens (deliver d j).1 ≡ journal_after answers answers_after (opens j) d
unfolding deliver journal_after begin_event
opens-deliver d j = fun_ext (λ l.
    opens-journal_effects d.1 false _ j l (handle_event-AsksFirst _ d.0 d.1) (λ h. cc)
    ∙ ap (λ r. if marks r.0 && key d.1 == l then false else opens j l) (run-deliver d j)
    ∙ either (marks (delivery answers answers_after (opens j) d).0) l)
  where
    either :
        (b : Bool) (l : ℤ × Text)
        → (if b && key d.1 == l then false else opens j l)
          ≡ (if b then answers_after (opens j) (key d.1) else opens j) l
    either true l = refl
    either false l = refl

-- As many turns are run over the table as over the abstract journal.
turns_run-eq-turns_finished :
    (k : ℤ × Text) (ds : List (World × Event)) (j : Journal)
    → turns_run k ds j ≡ turns_finished answers answers_after k (opens j) ds
turns_run-eq-turns_finished k [] j = refl
turns_run-eq-turns_finished k (d ∷ ds) j =
    ap₂ (λ r n. one_if (is_processed r.1 && key d.1 == k) + n) (run-deliver d j)
      (turns_run-eq-turns_finished k ds (deliver d j).1
        ∙ ap (λ f. turns_finished answers answers_after k f ds) (opens-deliver d j))

-- Whatever the table holds, and whatever else happens to the turns: of all deliveries of one event
-- to runners that share the hub, one after another and among those of other events, at most one
-- runs a turn to its end.
pub turns_run-le_one :
    (k : ℤ × Text) (ds : List (World × Event)) (j : Journal) → turns_run k ds j ≤ 1
turns_run-le_one k ds j =
    subst (λ n. n ≤ 1) (sym (turns_run-eq-turns_finished k ds j))
      (turns_finished-le_one answers answers_after (λ f l. if_true _ _ _ (==_refl l))
        (λ f l m h. stays (m == l) (f l) h) k (opens j) ds)
  where
    stays : (b c : Bool) → c ≡ false → (if b then false else c) ≡ false
    stays b c h = ground arith
