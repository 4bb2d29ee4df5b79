-- ===== src/Runner/Feed/Readers.antt =====
-- Every reader of a turn gets every frame, in order, whenever it comes.
use git_agent.Base.{
  true, false, Option, none, some, List, [], ◌∷◌, ◌++◌, ◌≡◌, refl, sym, ap, ap₂, ◌∙◌, subst, ℕ, suc,
  map, append_assoc, append-nil, All, All-append, length, if_false, ◌+◌, arith,
}
use git_agent.Runner.Feed.{
  Reader, ActivityTurn, open_turn, put_item, begin_emit, end_emit, emit, close, subscribe, drain,
  stream,
}

-- While the turn is open, it emits frames and readers come.
pub data Step (F : Type 0) : Type 0 where
  emitted : F → Step F
  subscribed : Step F

zero_plus : (n : ℕ) → n ≡ 0 + n
zero_plus n = omega arith

module _ {F : Type 0} where
  abbrev pub advance : Step F → ActivityTurn F → ActivityTurn F
  advance (emitted f) t = emit f t
  advance subscribed t = subscribe t

  abbrev pub run : List (Step F) → ActivityTurn F → ActivityTurn F
  run [] t = t
  run (s ∷ ss) t = run ss (advance s t)

  -- The frames that the steps emit.
  abbrev pub frames_of : List (Step F) → List F
  frames_of [] = []
  frames_of (emitted f ∷ ss) = f ∷ frames_of ss
  frames_of (subscribed ∷ ss) = frames_of ss

  -- The frames with their numbers, from `n + 1` on.
  abbrev pub numbered : ℕ → List F → List (ℕ × F)
  numbered n [] = []
  numbered n (f ∷ fs) = (suc n, f) ∷ numbered (suc n) fs

  -- The reader has got `fs` so far, and waits for more.
  abbrev IsAbreast : List F → Reader F → Type 0
  IsAbreast fs r = stream r ≡ (fs, false)

  drain-more :
      (q : List (Option F)) (f : F)
      → (drain q).1 ≡ false
      → drain (q ++ some f ∷ []) ≡ ((drain q).0 ++ f ∷ [], false)
  unfolding drain
  drain-more [] f h = refl
  drain-more (none ∷ q) f h = cc
  drain-more (some g ∷ q) f h = ap (λ r. (g ∷ r.0, r.1)) (drain-more q f h)

  drain-end :
      (q : List (Option F)) → (drain q).1 ≡ false → drain (q ++ none ∷ []) ≡ ((drain q).0, true)
  unfolding drain
  drain-end [] h = refl
  drain-end (none ∷ q) h = cc
  drain-end (some g ∷ q) h = ap (λ r. (g ∷ r.0, r.1)) (drain-end q h)

  put_item-IsAbreast :
      (fs : List F) (f : F) (r : Reader F)
      → IsAbreast fs r
      → IsAbreast (fs ++ f ∷ []) (put_item (some f) r)
  unfolding stream
  put_item-IsAbreast fs f r h =
      ap (λ d. (r.snapshot ++ d.0, d.1)) (drain-more r.queue f (ap (λ p. p.1) h))
      ∙ ap (λ xs. (xs, false))
          (sym (append_assoc r.snapshot (drain r.queue).0 (f ∷ [])) ∙ ap (λ p. p.0 ++ f ∷ []) h)

  put_item-All-IsAbreast :
      (fs : List F) (f : F) (rs : List (Reader F))
      → All (IsAbreast fs) rs
      → All (IsAbreast (fs ++ f ∷ [])) (map (put_item (some f)) rs)
  put_item-All-IsAbreast fs f [] h = tt
  put_item-All-IsAbreast fs f (r ∷ rs) h =
      (put_item-IsAbreast fs f r h.0, put_item-All-IsAbreast fs f rs h.1)

  -- An open turn after the frames `fs`, and the calls of the persistence with `ps`.
  abbrev pub IsOpen : List F → List F → ActivityTurn F → Type 0
  IsOpen fs ps t =
      (t.done ≡ false)
      × (t.frames ≡ fs)
      × (t.seq ≡ length ps)
      × (t.persisted ≡ numbered 0 ps)
      × All (IsAbreast fs) t.subscribers

  length-add : (fs : List F) (f : F) → suc (length fs) ≡ length (fs ++ f ∷ [])
  length-add [] f = refl
  length-add (g ∷ fs) f = ap suc (length-add fs f)

  numbered-add :
      (n : ℕ) (fs : List F) (f : F)
      → numbered n fs ++ (suc (n + length fs), f) ∷ [] ≡ numbered n (fs ++ f ∷ [])
  numbered-add n [] f = ap (λ k. (suc k, f) ∷ []) (omega arith)
  numbered-add n (g ∷ fs) f =
      ap (λ r. (suc n, g) ∷ r)
        (ap (λ k. numbered (suc n) fs ++ (suc k, f) ∷ []) (omega arith) ∙ numbered-add (suc n) fs f)

  pub begin_emit-IsOpen :
      (fs ps : List F) (f : F) (t : ActivityTurn F)
      → IsOpen fs ps t
      → IsOpen fs (ps ++ f ∷ []) (begin_emit f t)
  unfolding begin_emit
  begin_emit-IsOpen fs ps f t (d, fr, s, p, rs) = (
    d,
    fr,
    ap suc s ∙ length-add ps f,
    ap₂ (λ xs k. xs ++ (suc k, f) ∷ []) p (s ∙ zero_plus (length ps)) ∙ numbered-add 0 ps f,
    rs,
  )

  pub end_emit-IsOpen :
      (fs ps : List F) (f : F) (t : ActivityTurn F)
      → IsOpen fs ps t
      → IsOpen (fs ++ f ∷ []) ps (end_emit f t)
  unfolding end_emit
  end_emit-IsOpen fs ps f t (d, fr, s, p, rs) =
      (d, ap (λ xs. xs ++ f ∷ []) fr, s, p, put_item-All-IsAbreast fs f t.subscribers rs)

  emit-IsOpen :
      (fs ps : List F) (f : F) (t : ActivityTurn F)
      → IsOpen fs ps t
      → IsOpen (fs ++ f ∷ []) (ps ++ f ∷ []) (emit f t)
  unfolding emit
  emit-IsOpen fs ps f t h =
      end_emit-IsOpen fs (ps ++ f ∷ []) f (begin_emit f t) (begin_emit-IsOpen fs ps f t h)

  newcomer : (fs xs : List F) → xs ≡ fs → IsAbreast fs (record { snapshot = xs; queue = [] })
  unfolding stream drain
  newcomer fs xs e = ap (λ ys. (ys, false)) (append-nil xs ∙ e)

  pub subscribe-IsOpen :
      (fs ps : List F) (t : ActivityTurn F) → IsOpen fs ps t → IsOpen fs ps (subscribe t)
  unfolding subscribe
  subscribe-IsOpen fs ps t (d, fr, s, p, rs) = (
    d,
    fr,
    s,
    p,
    subst (All (IsAbreast fs)) (sym (if_false t.done _ _ d))
        (All-append (IsAbreast fs) t.subscribers _ rs (newcomer fs t.frames fr, tt)),
  )

  run-IsOpen :
      (ss : List (Step F)) (fs : List F) (t : ActivityTurn F)
      → IsOpen fs fs t
      → IsOpen (fs ++ frames_of ss) (fs ++ frames_of ss) (run ss t)
  run-IsOpen [] fs t h = subst (λ xs. IsOpen xs xs t) (sym (append-nil fs)) h
  run-IsOpen (emitted f ∷ ss) fs t h =
      subst (λ xs. IsOpen xs xs (run ss (emit f t))) (append_assoc fs (f ∷ []) (frames_of ss))
        (run-IsOpen ss (fs ++ f ∷ []) (emit f t) (emit-IsOpen fs fs f t h))
  run-IsOpen (subscribed ∷ ss) fs t h = run-IsOpen ss fs (subscribe t) (subscribe-IsOpen fs fs t h)

  pub open_turn-IsOpen : IsOpen [] [] open_turn
  unfolding open_turn
  open_turn-IsOpen = (refl, refl, refl, refl, tt)

  -- The reader has got all of `fs`, and has been told the end.
  abbrev pub IsComplete : List F → Reader F → Type 0
  IsComplete fs r = stream r ≡ (fs, true)

  put_item-All-IsComplete :
      (fs : List F) (rs : List (Reader F))
      → All (IsAbreast fs) rs
      → All (IsComplete fs) (map (put_item none) rs)
  unfolding stream
  put_item-All-IsComplete fs [] h = tt
  put_item-All-IsComplete fs (r ∷ rs) h = (
    ap (λ d. (r.snapshot ++ d.0, d.1)) (drain-end r.queue (ap (λ p. p.1) h.0))
        ∙ ap (λ p. (p.0, true)) h.0,
    put_item-All-IsComplete fs rs h.1,
  )

  -- What holds of a turn once it is closed.
  pub close-IsOpen :
      (fs ps : List F) (t : ActivityTurn F)
      → IsOpen fs ps t
      → All (IsComplete fs) (close t).subscribers
        × ((close t).frames ≡ fs)
        × ((close t).persisted ≡ numbered 0 ps)
  unfolding close
  close-IsOpen fs ps t (d, fr, s, p, rs) = (put_item-All-IsComplete fs t.subscribers rs, fr, p)

  -- However frames and readers come in an open turn without a cancellation: its readers yield all its
  -- frames and end, and all are persisted.
  pub close-run-All-IsComplete :
      (ss : List (Step F))
      → let t = close (run ss open_turn) in
        All (IsComplete (frames_of ss)) t.subscribers
        × (t.frames ≡ frames_of ss)
        × (t.persisted ≡ numbered 0 (frames_of ss))
  close-run-All-IsComplete ss =
      close-IsOpen (frames_of ss) (frames_of ss) (run ss open_turn)
        (run-IsOpen ss [] open_turn open_turn-IsOpen)

  pub run-done : (ss : List (Step F)) → (run ss open_turn).done ≡ false
  run-done ss = (run-IsOpen ss [] open_turn open_turn-IsOpen).0
