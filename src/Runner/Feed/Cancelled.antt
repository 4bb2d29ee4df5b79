-- ===== src/Runner/Feed/Cancelled.antt =====
-- The frames of a turn that may be cancelled while it persists one, and that readers join meanwhile.
use git_agent.Base.{
  Option, none, some, List, [], ◌∷◌, ◌++◌, ◌≡◌, sym, subst, append_assoc, append-nil, All,
}
use git_agent.Runner.Feed.{ActivityTurn, open_turn, begin_emit, end_emit, close, subscribe}
use git_agent.Runner.Feed.Readers.{
  IsOpen, IsComplete, numbered, begin_emit-IsOpen, end_emit-IsOpen, subscribe-IsOpen,
  open_turn-IsOpen, close-IsOpen,
}

-- The steps of an open turn: `emit` takes a number and calls the persistence, it goes on after that
-- or is cancelled there, and a reader comes.
pub data Move (F : Type 0) : Type 0 where
  emit_begins : F → Move F
  emit_ends : Move F
  emit_cancelled : Move F
  reader_comes : Move F

-- A turn, and the frame that it is persisting; it emits one frame at a time.
pub record Emission (F : Type 0) : Type 0 where
  pub turn : ActivityTurn F
  pub persisting : Option F

module _ {F : Type 0} where
  abbrev pub fresh : Emission F
  fresh = record { turn = open_turn; persisting = none }

  abbrev pub moved : Move F → ActivityTurn F → Option F → Emission F
  moved (emit_begins f) t none = record { turn = begin_emit f t; persisting = some f }
  moved (emit_begins f) t (some g) = record { turn = t; persisting = some g }
  moved emit_ends t none = record { turn = t; persisting = none }
  moved emit_ends t (some g) = record { turn = end_emit g t; persisting = none }
  moved emit_cancelled t o = record { turn = t; persisting = none }
  moved reader_comes t o = record { turn = subscribe t; persisting = o }

  abbrev pub run_moves : List (Move F) → Emission F → Emission F
  run_moves [] e = e
  run_moves (m ∷ ms) e = run_moves ms (moved m e.turn e.persisting)

  -- The frames whose number is taken, and those whose emission ends; the option is the one that is
  -- on its way.
  abbrev pub begun : Option F → List (Move F) → List F
  begun o [] = []
  begun none (emit_begins f ∷ ms) = f ∷ begun (some f) ms
  begun (some g) (emit_begins f ∷ ms) = begun (some g) ms
  begun o (emit_ends ∷ ms) = begun none ms
  begun o (emit_cancelled ∷ ms) = begun none ms
  begun o (reader_comes ∷ ms) = begun o ms

  abbrev pub ended : Option F → List (Move F) → List F
  ended o [] = []
  ended none (emit_begins f ∷ ms) = ended (some f) ms
  ended (some g) (emit_begins f ∷ ms) = ended (some g) ms
  ended none (emit_ends ∷ ms) = ended none ms
  ended (some g) (emit_ends ∷ ms) = g ∷ ended none ms
  ended o (emit_cancelled ∷ ms) = ended none ms
  ended o (reader_comes ∷ ms) = ended o ms

  run_moves-IsOpen :
      (ms : List (Move F)) (fs ps : List F) (t : ActivityTurn F) (o : Option F)
      → IsOpen fs ps t
      → IsOpen
          (fs ++ ended o ms)
          (ps ++ begun o ms)
          (run_moves ms (record { turn = t; persisting = o })).turn
  run_moves-IsOpen [] fs ps t none h =
      subst (λ xs. IsOpen xs (ps ++ []) t) (sym (append-nil fs))
        (subst (λ xs. IsOpen fs xs t) (sym (append-nil ps)) h)
  run_moves-IsOpen [] fs ps t (some g) h =
      subst (λ xs. IsOpen xs (ps ++ []) t) (sym (append-nil fs))
        (subst (λ xs. IsOpen fs xs t) (sym (append-nil ps)) h)
  run_moves-IsOpen (emit_begins f ∷ ms) fs ps t none h =
      subst
        (λ xs.
          IsOpen (fs ++ ended (some f) ms) xs
            (run_moves ms (record { turn = begin_emit f t; persisting = some f })).turn)
        (append_assoc ps (f ∷ []) (begun (some f) ms))
        (run_moves-IsOpen ms fs (ps ++ f ∷ []) (begin_emit f t) (some f)
          (begin_emit-IsOpen fs ps f t h))
  run_moves-IsOpen (emit_begins f ∷ ms) fs ps t (some g) h = run_moves-IsOpen ms fs ps t (some g) h
  run_moves-IsOpen (emit_ends ∷ ms) fs ps t none h = run_moves-IsOpen ms fs ps t none h
  run_moves-IsOpen (emit_ends ∷ ms) fs ps t (some g) h =
      subst
        (λ xs.
          IsOpen xs (ps ++ begun none ms)
            (run_moves ms (record { turn = end_emit g t; persisting = none })).turn)
        (append_assoc fs (g ∷ []) (ended none ms))
        (run_moves-IsOpen ms (fs ++ g ∷ []) ps (end_emit g t) none (end_emit-IsOpen fs ps g t h))
  run_moves-IsOpen (emit_cancelled ∷ ms) fs ps t none h = run_moves-IsOpen ms fs ps t none h
  run_moves-IsOpen (emit_cancelled ∷ ms) fs ps t (some g) h = run_moves-IsOpen ms fs ps t none h
  run_moves-IsOpen (reader_comes ∷ ms) fs ps t none h =
      run_moves-IsOpen ms fs ps (subscribe t) none (subscribe-IsOpen fs ps t h)
  run_moves-IsOpen (reader_comes ∷ ms) fs ps t (some g) h =
      run_moves-IsOpen ms fs ps (subscribe t) (some g) (subscribe-IsOpen fs ps t h)

  -- However the emissions of a turn begin, end and are cancelled, and readers come, also while a frame
  -- is persisted: once the turn is closed, every reader that came before yields, in their order, all
  -- frames whose emission has ended, and ends. The persistence was called for every frame whose
  -- emission has begun, in their order and under the numbers 1, 2, … without a gap, so that a frame
  -- whose emission was cancelled has its number and no reader.
  pub close-run_moves-All-IsComplete :
      (ms : List (Move F))
      → let t = close (run_moves ms fresh).turn in
        All (IsComplete (ended none ms)) t.subscribers
        × (t.frames ≡ ended none ms)
        × (t.persisted ≡ numbered 0 (begun none ms))
  close-run_moves-All-IsComplete ms =
      close-IsOpen (ended none ms) (begun none ms) (run_moves ms fresh).turn
        (run_moves-IsOpen ms [] [] open_turn none open_turn-IsOpen)
