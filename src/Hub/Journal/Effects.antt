-- ===== src/Hub/Journal/Effects.antt =====
-- What the effects of one handling make of the answers of the journal.
use git_agent.Base.{
  Text, Bool, true, false, Option, none, some, List, [], ◌∷◌, ◌≡◌, refl, sym, ap, ◌∙◌, ℤ, ◌&&◌, get,
  put, get-put, not, if◌then◌else◌, if_true, if_false, Bool-cases, nat_eq, list_eq, int_eq, pair_eq,
  ◌==◌, ==_refl, ==-iff_eq, arith, is_some, inl, inr,
}
use git_agent.Runner.Event.{Event}
use git_agent.Runner.Event.{has_code_target}
use git_agent.Runner.Slots.{ClaimResult}
use git_agent.Runner.Turn.{
  World, Effect, began, marked, peeked, asked_slot, touched, opened, emitted, executed, closed,
  forwarded_to, Outcome, holder_of, forward_to, hand_off, locked, with_instance, after_raise,
  is_elsewhere, raise_and_run, peek_and_run, handle_event,
}
use git_agent.Runner.Turn.Journal.{key, marks}
use git_agent.Hub.Journal.{EventRow, Journal, upsert, begin_event, set_processed, mark_processed}

-- The answer of `begin_event` at each key.
abbrev is_open : Option EventRow → Bool
is_open none = true
is_open (some row) = not row.processed

abbrev pub opens : Journal → ℤ × Text → Bool
opens j k = is_open (get k j)

-- What one effect of the handler does to the table.
unfoldable pub journal_effect : Event → Effect → Journal → Journal
journal_effect e began j = (begin_event (key e) e.event_id j).1
journal_effect e marked j = mark_processed (key e) j
journal_effect e _ j = j

unfoldable pub journal_effects : Event → List Effect → Journal → Journal
journal_effects e [] j = j
journal_effects e (x ∷ xs) j = journal_effects e xs (journal_effect e x j)

pub upsert-answer :
    (k : ℤ × Text) (id : ℤ) (o : Option EventRow) (j : Journal) → (upsert k id o j).0 ≡ is_open o
unfolding upsert
upsert-answer k id none j = refl
upsert-answer k id (some row) j = refl

-- A write of a row that is as open as the one before changes no answer.
opens-put :
    (k : ℤ × Text) (row : EventRow) (j : Journal) (l : ℤ × Text)
    → opens (put k row j) l ≡ (if k == l then not row.processed else opens j l)
opens-put k row j l = ap is_open (get-put k l row j) ∙ either (k == l)
  where
    either :
        (b : Bool)
        → is_open (if b then some row else get l j) ≡ (if b then not row.processed else opens j l)
    either true = refl
    either false = refl

same_answer :
    (k l : ℤ × Text) (j : Journal) (b : Bool)
    → b ≡ opens j k
    → (if k == l then b else opens j l) ≡ opens j l
same_answer k l j b h = elim (Bool-cases (k == l)) [
  | inl e ↦ if_true _ _ _ e ∙ h ∙ ap (opens j) ((==-iff_eq k l).0 e)
  | inr e ↦ if_false _ _ _ e
]

pub opens-upsert :
    (k : ℤ × Text) (id : ℤ) (o : Option EventRow) (j : Journal) (l : ℤ × Text)
    → get k j ≡ o
    → opens (upsert k id o j).1 l ≡ opens j l
unfolding upsert
opens-upsert k id none j l h = opens-put k _ j l ∙ same_answer k l j true (sym (ap is_open h))
opens-upsert k id (some row) j l h = opens-put k row j l ∙ same_answer k l j _ (sym (ap is_open h))

upsert-has_row :
    (k : ℤ × Text) (id : ℤ) (o : Option EventRow) (j : Journal)
    → is_some (get k (upsert k id o j).1) ≡ true
unfolding upsert
upsert-has_row k id none j = ap is_some (get-put k k _ j ∙ if_true _ _ _ (==_refl k))
upsert-has_row k id (some row) j = ap is_some (get-put k k row j ∙ if_true _ _ _ (==_refl k))

opens-set_processed :
    (k : ℤ × Text) (o : Option EventRow) (j : Journal) (l : ℤ × Text)
    → is_some o ≡ true
    → opens (set_processed k o j) l ≡ (if k == l then false else opens j l)
unfolding set_processed
opens-set_processed k none j l h = cc
opens-set_processed k (some row) j l h = opens-put k _ j l

has_row-set_processed :
    (k : ℤ × Text) (o : Option EventRow) (j : Journal)
    → is_some o ≡ true
    → is_some (get k (set_processed k o j)) ≡ true
unfolding set_processed
has_row-set_processed k none j h = cc
has_row-set_processed k (some row) j h = ap is_some (get-put k k _ j ∙ if_true _ _ _ (==_refl k))

-- The handler marks an event only after it has asked the journal; `asked` says that it has.
abbrev pub AsksFirst : Bool → List Effect → Type 0
AsksFirst asked [] = Unit
AsksFirst asked (began ∷ xs) = AsksFirst true xs
AsksFirst asked (marked ∷ xs) = (asked ≡ true) × AsksFirst asked xs
AsksFirst asked (x ∷ xs) = AsksFirst asked xs

asked-AsksFirst : (xs : List Effect) → AsksFirst true xs
asked-AsksFirst [] = tt
asked-AsksFirst (began ∷ xs) = asked-AsksFirst xs
asked-AsksFirst (marked ∷ xs) = (refl, asked-AsksFirst xs)
asked-AsksFirst (peeked ∷ xs) = asked-AsksFirst xs
asked-AsksFirst (asked_slot ∷ xs) = asked-AsksFirst xs
asked-AsksFirst (touched ∷ xs) = asked-AsksFirst xs
asked-AsksFirst (opened ∷ xs) = asked-AsksFirst xs
asked-AsksFirst (emitted f ∷ xs) = asked-AsksFirst xs
asked-AsksFirst (executed ∷ xs) = asked-AsksFirst xs
asked-AsksFirst (closed ∷ xs) = asked-AsksFirst xs
asked-AsksFirst (forwarded_to a ∷ xs) = asked-AsksFirst xs

either-AsksFirst :
    (b : Bool) (r q : List Effect × Outcome)
    → AsksFirst false r.0
    → AsksFirst false q.0
    → AsksFirst false (if b then r else q).0
either-AsksFirst true r q h k = h
either-AsksFirst false r q h k = k

forward_to-AsksFirst : (w : World) (o : Option Text) → AsksFirst false (forward_to w o).0
unfolding forward_to
forward_to-AsksFirst w none = tt
forward_to-AsksFirst w (some address) = tt

hand_off-AsksFirst : (w : World) (c : ClaimResult) → AsksFirst false (hand_off w c).0
unfolding hand_off
hand_off-AsksFirst w c = forward_to-AsksFirst w (holder_of c)

with_instance-AsksFirst : (b : Bool) (w : World) → AsksFirst false (with_instance b w).0
unfolding with_instance
with_instance-AsksFirst true w = asked-AsksFirst (locked w).0
with_instance-AsksFirst false w = tt

raise_and_run-AsksFirst :
    (b : Bool) (w : World) (o : Option ClaimResult) → AsksFirst false (after_raise b w o).0
unfolding after_raise
raise_and_run-AsksFirst b w none = with_instance-AsksFirst b w
raise_and_run-AsksFirst b w (some c) = hand_off-AsksFirst w c

pub handle_event-AsksFirst :
    (b : Bool) (w : World) (e : Event) → AsksFirst false (handle_event b w e).0
unfolding handle_event peek_and_run raise_and_run
handle_event-AsksFirst b w e =
    let run = raise_and_run-AsksFirst b w w.refusal in
    either-AsksFirst (has_code_target e) (peek_and_run b w) _
      (either-AsksFirst w.raised_here (raise_and_run b w) _ run (
        either-AsksFirst (is_elsewhere w.peek)
          (peeked ∷ (hand_off w w.peek).0, (hand_off w w.peek).1) _ (hand_off-AsksFirst w w.peek)
          run))
      (skipped b)
  where
    skipped : (c : Bool) → AsksFirst false (began ∷ (if c then marked ∷ [] else []))
    skipped true = (refl, tt)
    skipped false = tt

marks-marked : (xs : List Effect) → marks (marked ∷ xs) ≡ true
unfolding marks
marks-marked xs = ground arith

-- What the effects make of the answers: the event is settled if they mark it, and no other changes.
pub opens-journal_effects :
    (e : Event) (asked : Bool) (xs : List Effect) (j : Journal) (l : ℤ × Text)
    → AsksFirst asked xs
    → (asked ≡ true → is_some (get (key e) j) ≡ true)
    → opens (journal_effects e xs j) l ≡ (if marks xs && key e == l then false else opens j l)
unfolding journal_effects journal_effect marks begin_event mark_processed
opens-journal_effects e asked [] j l h has = refl
opens-journal_effects e asked (began ∷ xs) j l h has =
    let k = key e in
    opens-journal_effects e true xs _ l h (λ _. upsert-has_row k e.event_id (get k j) j)
    ∙ ap (λ b. if marks xs && key e == l then false else b)
        (opens-upsert k e.event_id (get k j) j l refl)
opens-journal_effects e asked (marked ∷ xs) j l (a, h) has =
    let k = key e in
    opens-journal_effects e asked xs _ l h (λ _. has_row-set_processed k (get k j) j (has a))
    ∙ ap (λ b. if marks xs && key e == l then false else b)
        (opens-set_processed k (get k j) j l (has a))
    ∙ settled (marks xs) (key e == l) (opens j l)
    ∙ ap (λ b. if b && key e == l then false else opens j l) (sym (marks-marked xs))
  where
    settled :
        (a b c : Bool)
        → (if a && b then false else if b then false else c) ≡ (if b then false else c)
    settled a b c = ground arith
opens-journal_effects e asked (peeked ∷ xs) j l h has = opens-journal_effects e asked xs j l h has
opens-journal_effects e asked (asked_slot ∷ xs) j l h has =
    opens-journal_effects e asked xs j l h has
opens-journal_effects e asked (touched ∷ xs) j l h has = opens-journal_effects e asked xs j l h has
opens-journal_effects e asked (opened ∷ xs) j l h has = opens-journal_effects e asked xs j l h has
opens-journal_effects e asked (emitted f ∷ xs) j l h has =
    opens-journal_effects e asked xs j l h has
opens-journal_effects e asked (executed ∷ xs) j l h has = opens-journal_effects e asked xs j l h has
opens-journal_effects e asked (closed ∷ xs) j l h has = opens-journal_effects e asked xs j l h has
opens-journal_effects e asked (forwarded_to a ∷ xs) j l h has =
    opens-journal_effects e asked xs j l h has
