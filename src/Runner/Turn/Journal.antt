-- ===== src/Runner/Turn/Journal.antt =====
-- The event journal over redeliveries: what `begin_event` and `mark_processed` of the store promise
-- makes of `_handle_event`.
use git_agent.Base.{
  Text, Bool, true, false, List, [], ◌∷◌, ◌≡◌, refl, sym, ap, ◌∙◌, inl, inr, ℕ, ◌+◌, ◌≤◌,
  if◌then◌else◌, Bool-cases, ltb, ◌&&◌, ◌==◌, nat_eq, list_eq, pair_eq, int_eq, ℤ, &&-eq_true,
  true≢false, ==-iff_eq, arith,
}
use git_agent.Runner.Event.{Event}
use git_agent.Runner.Turn.{World, Effect, Outcome, skipped_no_commit, handle_event}
use git_agent.Runner.Turn.Frames.{
  number, is_marked, settles, one_if, is_processed, IsOrderly, handle_event-IsOrderly,
}

-- What the journal knows an event by.
abbrev pub key : Event → ℤ × Text
key e = (e.instance_id, e.dedup_key)

unfoldable pub marks : List Effect → Bool
marks xs = ltb 0 (number is_marked xs)

abbrev pub is_skipped : Outcome → Bool
is_skipped skipped_no_commit = true
is_skipped _ = false

not_both : (a b : Bool) → (a ≡ true → b ≡ true → ⊥) → (a && b) ≡ false
not_both true true h = absurd (h refl refl)
not_both true false h = refl
not_both false b h = refl

processed_begins :
    (b : Bool) (r : List Effect × Outcome) → IsOrderly b r → is_processed r.1 ≡ true → b ≡ true
processed_begins b r (_, _, _, _, _, runs, once) h = elim once [
  | inl none_ran ↦ absurd (omega (arith, runs, ap one_if h, none_ran))
  | inr (one, let_in) ↦ let_in
]

settles_processed : (b : Bool) (o : Outcome) → is_processed o ≡ true → settles b o ≡ true
settles_processed b o h = ground arith

settles_otherwise :
    (b : Bool) (o : Outcome) → is_processed o ≡ false → is_skipped o ≡ false → settles b o ≡ false
settles_otherwise b o h k = ground arith

ltb-one_if : (b : Bool) → ltb 0 (one_if b) ≡ b
ltb-one_if true = refl
ltb-one_if false = refl

marks-settles : (b : Bool) (r : List Effect × Outcome) → IsOrderly b r → marks r.0 ≡ settles b r.1
unfolding marks
marks-settles b r h = rw h.0 (ltb-one_if (settles b r.1))

module _ {ℓ} {J : Type ℓ} (begins : J → ℤ × Text → Bool) (mark : J → ℤ × Text → J) where
  -- One delivery: the handler's effects and outcome.
  abbrev pub delivery : J → World × Event → List Effect × Outcome
  delivery j d = handle_event (begins j (key d.1)) d.0 d.1

  -- The journal after it.
  unfoldable pub journal_after : J → World × Event → J
  journal_after j d = if marks (delivery j d).0 then mark j (key d.1) else j

  -- How many deliveries with the key `k` ran a turn to its end and were settled by it.
  abbrev pub turns_finished : ℤ × Text → J → List (World × Event) → ℕ
  turns_finished k j [] = 0
  turns_finished k j (d ∷ ds) =
      let rest = turns_finished k (journal_after j d) ds in
      one_if (is_processed (delivery j d).1 && key d.1 == k) + rest

  marked_by :
      (j : J) (d : World × Event) (b : Bool)
      → settles (begins j (key d.1)) (delivery j d).1 ≡ b
      → marks (delivery j d).0 ≡ b
  marked_by j d b h =
      marks-settles _ (delivery j d) (handle_event-IsOrderly (begins j (key d.1)) d.0 d.1) ∙ h

  module _ (settled : (j : J) (k : ℤ × Text) → begins (mark j k) k ≡ false)
      (stays : (j : J) (k l : ℤ × Text) → begins j k ≡ false → begins (mark j l) k ≡ false) where
    settled-journal_after :
        (j : J) (k : ℤ × Text) (d : World × Event)
        → begins j k ≡ false
        → begins (journal_after j d) k ≡ false
    unfolding journal_after
    settled-journal_after j k d h = elim (Bool-cases (marks (delivery j d).0)) [
      | inl p ↦ rw p (stays j k (key d.1) h)
      | inr p ↦ rw p h
    ]

    not_again :
        (j : J) (k : ℤ × Text) (d : World × Event)
        → begins j k ≡ false
        → (is_processed (delivery j d).1 && key d.1 == k) ≡ false
    not_again j k d h = not_both _ _ (λ p q. true≢false (
        sym (
          processed_begins _ (delivery j d) (handle_event-IsOrderly (begins j (key d.1)) d.0 d.1) p)
        ∙ ap (begins j) ((==-iff_eq (key d.1) k).0 q)
        ∙ h))

    none_finished :
        (k : ℤ × Text) (j : J) (ds : List (World × Event))
        → begins j k ≡ false
        → turns_finished k j ds ≡ 0
    none_finished k j [] h = refl
    none_finished k j (d ∷ ds) h = omega (
      arith,
      ap one_if (not_again j k d h),
      none_finished k (journal_after j d) ds (settled-journal_after j k d h),
    )

    settled_by :
        (j : J) (k : ℤ × Text) (d : World × Event)
        → (is_processed (delivery j d).1 && key d.1 == k) ≡ true
        → begins (journal_after j d) k ≡ false
    unfolding journal_after
    settled_by j k d h =
        let (p, q) = &&-eq_true (is_processed (delivery j d).1) _ h in
        rw (marked_by j d _ (settles_processed _ _ p), sym ((==-iff_eq (key d.1) k).0 q))
          (settled j (key d.1))

    -- If the store begins no event that it has marked, and keeps to that whatever else it marks,
    -- then of all deliveries with one key, handled one after another in any order among those of
    -- other events, at most one runs a turn to its end.
    pub turns_finished-le_one :
        (k : ℤ × Text) (j : J) (ds : List (World × Event)) → turns_finished k j ds ≤ 1
    turns_finished-le_one k j [] = omega arith
    turns_finished-le_one k j (d ∷ ds) =
        elim (Bool-cases (is_processed (delivery j d).1 && key d.1 == k)) [
          | inl p ↦
              omega
                (arith, ap one_if p, none_finished k (journal_after j d) ds (settled_by j k d p))
          | inr p ↦ omega (arith, ap one_if p, turns_finished-le_one k (journal_after j d) ds)
        ]

  -- A delivery that ends neither as `processed` nor as `skipped_no_commit` leaves the journal as it
  -- was, so that the next delivery of the event begins as this one did.
  pub journal_after-unsettled :
      (j : J) (d : World × Event)
      → is_processed (delivery j d).1 ≡ false
      → is_skipped (delivery j d).1 ≡ false
      → journal_after j d ≡ j
  unfolding journal_after
  journal_after-unsettled j d p q = rw (marked_by j d _ (settles_otherwise _ _ p q)) refl
