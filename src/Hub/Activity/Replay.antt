-- ===== src/Hub/Activity/Replay.antt =====
-- The frames of a turn that is over, read back from the table.
use git_agent.Base.{
  Text, Bool, true, false, Option, none, List, [], ◌∷◌, ◌++◌, append-nil, append_assoc, ◌≡◌, refl,
  sym, ap, ◌∙◌, ℕ, suc, ◌≤◌, leb, ℤ, All, Ordered, sorted, sorted-All, insert_sorted, filter_by,
  filter_by-append, get_last?, get_last?-append, map, if_true, if_false, nat_eq, list_eq, int_eq,
  option_eq, ◌==◌, ==_refl, arith,
}
use git_agent.Value.{Fields}
use git_agent.Runner.Feed.{open_turn, close}
use git_agent.Runner.Feed.Readers.{
  Step, emitted, run, frames_of, numbered, close-run-All-IsComplete,
}
use git_agent.Hub.Activity.{
  ActivityRow, activity_row, add_activity, is_of, event_of, last_event, replay_of, list_activity,
}

-- The calls of `persist` of one turn, in order.
unfoldable pub persist_all :
    ℤ → Option ℤ → Text → List (ℕ × Fields) → List ActivityRow → List ActivityRow
persist_all i e trace [] rows = rows
persist_all i e trace ((seq, frame) ∷ ps) rows =
    persist_all i e trace ps (add_activity i e trace seq frame rows)

abbrev earlier : ActivityRow → ActivityRow → Bool
earlier a b = leb a.seq b.seq

insert-first :
    (x : ActivityRow) (xs : List ActivityRow)
    → All (λ y. earlier x y ≡ true) xs
    → insert_sorted earlier x xs ≡ x ∷ xs
unfolding insert_sorted
insert-first x [] h = refl
insert-first x (y ∷ xs) h = if_true _ _ _ h.0

sorted_of_Ordered : (xs : List ActivityRow) → Ordered earlier xs → sorted earlier xs ≡ xs
unfolding sorted
sorted_of_Ordered [] h = refl
sorted_of_Ordered (x ∷ xs) h =
    ap (insert_sorted earlier x) (sorted_of_Ordered xs h.1) ∙ insert-first x xs h.0

-- What is before all others, and after none of those in front of it, comes first.
sorted-first :
    (xs : List ActivityRow) (y : ActivityRow) (ys : List ActivityRow)
    → All (λ x. earlier x y ≡ false) xs
    → All (λ z. earlier y z ≡ true) ys
    → sorted earlier (xs ++ y ∷ ys) ≡ y ∷ sorted earlier (xs ++ ys)
unfolding sorted insert_sorted
sorted-first [] y ys h k =
    insert-first y (sorted earlier ys) (sorted-All (λ z. earlier y z ≡ true) earlier ys k)
sorted-first (x ∷ xs) y ys h k =
    ap (insert_sorted earlier x) (sorted-first xs y ys h.1 k) ∙ if_false _ _ _ h.0

-- One of the first, one of the second, and so on; the longer goes on alone.
abbrev pub interleave : List Fields → List Fields → List Fields
interleave [] gs = gs
interleave (f ∷ fs) [] = f ∷ fs
interleave (f ∷ fs) (g ∷ gs) = f ∷ g ∷ interleave fs gs

module _ (i : ℤ) (e : Option ℤ) (trace : Text) where
  -- The rows of these frames, numbered from `n + 1` on.
  abbrev rows_from : ℕ → List Fields → List ActivityRow
  rows_from n fs = map (λ p. activity_row i e trace p.0 p.1) (numbered n fs)

  persist_all-rows :
      (n : ℕ) (fs : List Fields) (rows : List ActivityRow)
      → persist_all i e trace (numbered n fs) rows ≡ rows ++ rows_from n fs
  unfolding persist_all add_activity
  persist_all-rows n [] rows = sym (append-nil rows)
  persist_all-rows n (f ∷ fs) rows =
      persist_all-rows (suc n) fs (rows ++ activity_row i e trace (suc n) f ∷ [])
      ∙ append_assoc rows _ _

  row-is_of : (n : ℕ) (f : Fields) → is_of i e (activity_row i e trace n f) ≡ true
  unfolding activity_row
  row-is_of n f = rw (==_refl i, ==_refl e) refl

  filter-rows_from :
      (n : ℕ) (fs : List Fields) → filter_by (is_of i e) (rows_from n fs) ≡ rows_from n fs
  filter-rows_from n [] = refl
  filter-rows_from n (f ∷ fs) =
      if_true _ _ _ (row-is_of (suc n) f)
      ∙ ap (λ r. activity_row i e trace (suc n) f ∷ r) (filter-rows_from (suc n) fs)

  payload-rows_from : (n : ℕ) (fs : List Fields) → map (λ row. row.payload) (rows_from n fs) ≡ fs
  unfolding activity_row
  payload-rows_from n [] = refl
  payload-rows_from n (f ∷ fs) = ap (λ r. f ∷ r) (payload-rows_from (suc n) fs)

  -- The numbers are above `m`.
  above :
      (m n : ℕ) (fs : List Fields)
      → m ≤ n
      → All (λ row. leb (suc m) row.seq ≡ true) (rows_from n fs)
  unfolding activity_row
  above m n [] h = tt
  above m n (f ∷ fs) h = (ground arith, above m (suc n) fs (omega arith))

  not_below :
      (m n : ℕ) (fs : List Fields) → m ≤ n → All (λ row. leb row.seq m ≡ false) (rows_from n fs)
  unfolding activity_row
  not_below m n [] h = tt
  not_below m n (f ∷ fs) h = (ground arith, not_below m (suc n) fs (omega arith))

  rows_from-Ordered : (n : ℕ) (fs : List Fields) → Ordered earlier (rows_from n fs)
  unfolding activity_row
  rows_from-Ordered n [] = tt
  rows_from-Ordered n (f ∷ fs) = (above n (suc n) fs (omega arith), rows_from-Ordered (suc n) fs)

  -- The table after the turn, and its rows of the event.
  filter-persist_all :
      (fs : List Fields) (rows : List ActivityRow)
      → filter_by (is_of i e) (persist_all i e trace (numbered 0 fs) rows)
        ≡ filter_by (is_of i e) rows ++ rows_from 0 fs
  filter-persist_all fs rows =
      ap (filter_by (is_of i e)) (persist_all-rows 0 fs rows)
      ∙ filter_by-append (is_of i e) rows (rows_from 0 fs)
      ∙ ap (λ xs. filter_by (is_of i e) rows ++ xs) (filter-rows_from 0 fs)

  replay_of-persisted :
      (fs : List Fields) (rows : List ActivityRow)
      → filter_by (is_of i e) rows ≡ []
      → replay_of i e (persist_all i e trace (numbered 0 fs) rows) ≡ fs
  unfolding replay_of
  replay_of-persisted fs rows h =
      ap (λ xs. map (λ row. row.payload) (sorted earlier xs))
        (filter-persist_all fs rows ∙ ap (λ xs. xs ++ rows_from 0 fs) h)
      ∙ ap (map (λ row. row.payload)) (sorted_of_Ordered _ (rows_from-Ordered 0 fs))
      ∙ payload-rows_from 0 fs

  filter-instance :
      (n : ℕ) (fs : List Fields)
      → filter_by (λ row. row.instance_id == i) (rows_from n fs) ≡ rows_from n fs
  unfolding activity_row
  filter-instance n [] = refl
  filter-instance n (f ∷ fs) =
      if_true _ _ _ (==_refl i)
      ∙ ap (λ r. activity_row i e trace (suc n) f ∷ r) (filter-instance (suc n) fs)

  event_of_last :
      (n : ℕ) (f : Fields) (fs : List Fields) → event_of (get_last? (rows_from n (f ∷ fs))) ≡ e
  unfolding activity_row
  event_of_last n f [] = refl
  event_of_last n f (g ∷ fs) = event_of_last (suc n) g fs

  last_event-persisted :
      (f : Fields) (fs : List Fields) (rows : List ActivityRow)
      → last_event i (persist_all i e trace (numbered 0 (f ∷ fs)) rows) ≡ e
  unfolding last_event
  last_event-persisted f fs rows =
      let mine : ActivityRow → Bool = λ row. row.instance_id == i in
      ap (λ xs. event_of (get_last? (filter_by mine xs))) (persist_all-rows 0 (f ∷ fs) rows)
      ∙ ap (λ xs. event_of (get_last? xs))
          (filter_by-append mine rows (rows_from 0 (f ∷ fs))
            ∙ ap (λ xs. filter_by mine rows ++ xs) (filter-instance 0 (f ∷ fs)))
      ∙ ap event_of (get_last?-append (filter_by mine rows) _ (rows_from 1 fs))
      ∙ event_of_last 0 f fs

  -- A turn that is over, and whose frames could all be stored, is read back from the table as it was
  -- emitted, whatever the readers did meanwhile and whatever other turns the table holds: by its
  -- event, and as the latest turn of the instance, if no earlier turn had that event.
  pub list_activity-run :
      (f : Fields) (steps : List (Step Fields)) (rows : List ActivityRow)
      → filter_by (is_of i e) rows ≡ []
      → let table =
          persist_all i e trace (close (run (emitted f ∷ steps) open_turn)).persisted rows in
        (list_activity i e false table ≡ f ∷ frames_of steps)
        × (list_activity i none true table ≡ f ∷ frames_of steps)
  unfolding list_activity
  list_activity-run f steps rows h =
      let fs = f ∷ frames_of steps in
      let persisted = (close-run-All-IsComplete (emitted f ∷ steps)).2 in
      let stored = λ (ps : List (ℕ × Fields)). persist_all i e trace ps rows in
      (
        ap (λ ps. replay_of i e (stored ps)) persisted ∙ replay_of-persisted fs rows h,
        ap (λ ps. replay_of i (last_event i (stored ps)) (stored ps)) persisted
            ∙ ap (λ event. replay_of i event (stored (numbered 0 fs)))
                (last_event-persisted f (frames_of steps) rows)
            ∙ replay_of-persisted fs rows h,
      )

-- Two turns of an instance with the same event, and the traces of the two.
module _ (i : ℤ) (e : Option ℤ) (trace trace' : Text) where
  same_seq :
      (n : ℕ) (f g : Fields)
      → earlier (activity_row i e trace n f) (activity_row i e trace' n g) ≡ true
  unfolding activity_row
  same_seq n f g = ground arith

  not_below_row :
      (n : ℕ) (g : Fields) (fs : List Fields)
      → All (λ row. earlier row (activity_row i e trace' n g) ≡ false) (rows_from i e trace n fs)
  unfolding activity_row
  not_below_row n g fs = not_below i e trace n n fs (omega arith)

  above_row :
      (n : ℕ) (g : Fields) (gs : List Fields)
      → All
          (λ row. earlier (activity_row i e trace' (suc n) g) row ≡ true)
          (rows_from i e trace' (suc n) gs)
  unfolding activity_row
  above_row n g gs = above i e trace' n (suc n) gs (omega arith)

  -- Their rows come one by one.
  payload-two_turns :
      (n : ℕ) (fs gs : List Fields)
      → map
          (λ row. row.payload)
          (sorted earlier (rows_from i e trace n fs ++ rows_from i e trace' n gs))
        ≡ interleave fs gs
  unfolding sorted insert_sorted activity_row
  payload-two_turns n [] gs =
      ap (map (λ row. row.payload))
        (sorted_of_Ordered (rows_from i e trace' n gs) (rows_from-Ordered i e trace' n gs))
      ∙ payload-rows_from i e trace' n gs
  payload-two_turns n (f ∷ fs) [] =
      ap (λ rows. map (λ row. row.payload) (sorted earlier rows))
        (append-nil (rows_from i e trace n (f ∷ fs)))
      ∙ ap (map (λ row. row.payload)) (
          sorted_of_Ordered (rows_from i e trace n (f ∷ fs))
            (rows_from-Ordered i e trace n (f ∷ fs)))
      ∙ payload-rows_from i e trace n (f ∷ fs)
  payload-two_turns n (f ∷ fs) (g ∷ gs) =
      let first = activity_row i e trace (suc n) f in
      let second = activity_row i e trace' (suc n) g in
      ap (λ rows. map (λ row. row.payload) (insert_sorted earlier first rows))
        (sorted-first (rows_from i e trace (suc n) fs) second (rows_from i e trace' (suc n) gs)
          (not_below_row (suc n) g fs) (above_row n g gs))
      ∙ ap (map (λ row. row.payload)) (if_true _ _ _ (same_seq (suc n) f g))
      ∙ ap (λ rest. f ∷ g ∷ rest) (payload-two_turns (suc n) fs gs)

  replay_of-two_turns :
      (fs gs : List Fields) (rows : List ActivityRow)
      → filter_by (is_of i e) rows ≡ []
      → replay_of i e
          (persist_all i e trace' (numbered 0 gs) (persist_all i e trace (numbered 0 fs) rows))
        ≡ interleave fs gs
  unfolding replay_of
  replay_of-two_turns fs gs rows h =
      ap (λ xs. map (λ row. row.payload) (sorted earlier xs))
        (filter-persist_all i e trace' gs _
          ∙ ap (λ xs. xs ++ rows_from i e trace' 0 gs)
              (filter-persist_all i e trace fs rows ∙ ap (λ xs. xs ++ rows_from i e trace 0 fs) h))
      ∙ payload-two_turns 0 fs gs

  -- Two turns of an instance with the same event, such as two turns of the chat, which have none,
  -- whatever their traces are, are read back as one, by the event and as the latest turn: their
  -- frames come by turns, one of the first and one of the second. The frames could all be stored,
  -- the second turn has a frame, and no earlier turn had that event.
  pub list_activity-two_turns :
      (fs : List Fields) (g : Fields) (gs : List Fields) (rows : List ActivityRow)
      → filter_by (is_of i e) rows ≡ []
      → let table =
          persist_all i e trace'
            (numbered 0 (g ∷ gs))
            (persist_all i e trace (numbered 0 fs) rows) in
        (list_activity i e false table ≡ interleave fs (g ∷ gs))
        × (list_activity i none true table ≡ interleave fs (g ∷ gs))
  unfolding list_activity
  list_activity-two_turns fs g gs rows h =
      let first = persist_all i e trace (numbered 0 fs) rows in
      let table = persist_all i e trace' (numbered 0 (g ∷ gs)) first in
      let both = replay_of-two_turns fs (g ∷ gs) rows h in
      (
        both,
        ap (λ event. replay_of i event table) (last_event-persisted i e trace' g gs first) ∙ both,
      )
