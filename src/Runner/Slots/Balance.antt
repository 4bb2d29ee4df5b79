-- ===== src/Runner/Slots/Balance.antt =====
-- Every permit of the runner is accounted for, whatever the tasks do.
use git_agent.Base.{
  Bool, true, false, Option, none, some, List, [], ◌≡◌, refl, ap, subst, ℕ, ◌+◌, ◌≤◌, ◌<◌, not,
  ltb→lt, contains, remove_one, length-remove_one, remove_one-Distinct, contains-remove_one-false,
  the_some, Distinct, is_some, length, &&-eq_true, nat_eq, arith,
}
use git_agent.Runner.Slots.{
  Slots, init, busy, Action, arrived, left, acquired, found_raised, asked, answered, claim_failed,
  cancelled, popped, released, release_failed, is_ours, arrive, leave, acquire, give_up, ask,
  finish_claim, pop_instance, finish_stop, when, leave_lock, step, may_enter, Reachable, start,
  next,
}

abbrev holders : Option ℕ → ℕ
holders none = 0
holders (some id) = 1

-- The instance that a task claims under the lock is not raised.
abbrev Absent : Option ℕ → List ℕ → Type 0
Absent none xs = Unit
Absent (some id) xs = contains id xs ≡ false

-- The permits: free, kept by instances, held by tasks under way, or lost.
abbrev pub permits : Slots → ℕ
permits s =
    s.free + length s.instances + length s.waiting + holders s.claiming + length s.stopping + s.lost

when-eq : {b : Bool} {s t : Slots} → when b s ≡ some t → (b ≡ true) × (s ≡ t)
when-eq {b = true} h = (refl, cc)
when-eq {b = false} h = cc

not-eq_true : (b : Bool) → not b ≡ true → b ≡ false
not-eq_true true h = cc
not-eq_true false h = refl

some_id-free : (o : Option ℕ) → not (is_some o) ≡ true → o ≡ none
some_id-free none h = refl
some_id-free (some id) h = cc

module _ (n : ℕ) where
  abbrev pub IsSound : Slots → Type 0
  IsSound s = (permits s ≡ n) × Distinct s.instances × Absent s.claiming s.instances

  arrive-IsSound : (id : ℕ) (s : Slots) → IsSound s → IsSound (arrive id s)
  unfolding arrive
  arrive-IsSound id s h = h

  leave-IsSound : (id : ℕ) (s : Slots) → IsSound s → IsSound (leave id s)
  unfolding leave
  leave-IsSound id s h = h

  acquire-IsSound : (id : ℕ) (s : Slots) → 0 < s.free → IsSound s → IsSound (acquire id s)
  unfolding acquire
  acquire-IsSound id s h (p, d, a) = (omega (arith, p, h), d, a)

  give_up-IsSound :
      (id : ℕ) (s : Slots) → contains id s.waiting ≡ true → IsSound s → IsSound (give_up id s)
  unfolding give_up
  give_up-IsSound id s h (p, d, a) = (omega (arith, p, length-remove_one id s.waiting h), d, a)

  ask-IsSound :
      (id : ℕ) (s : Slots)
      → contains id s.waiting ≡ true
      → s.claiming ≡ none
      → contains id s.instances ≡ false
      → IsSound s
      → IsSound (ask id s)
  unfolding ask
  ask-IsSound id s h free fresh (p, d, a) =
      (omega (arith, p, length-remove_one id s.waiting h, ap holders free), d, fresh)

  finish_claim-IsSound :
      (raised : Bool) (id : ℕ) (s : Slots)
      → s.claiming ≡ some id
      → IsSound s
      → IsSound (finish_claim raised id s)
  unfolding finish_claim
  finish_claim-IsSound true id s e (p, d, a) =
      (omega (arith, p, ap holders e), (subst (λ o. Absent o s.instances) e a, d), tt)
  finish_claim-IsSound false id s e (p, d, a) = (omega (arith, p, ap holders e), d, tt)

  pop-Absent : (o : Option ℕ) (id : ℕ) (xs : List ℕ) → Absent o xs → Absent o (remove_one id xs)
  pop-Absent none id xs a = tt
  pop-Absent (some j) id xs a = contains-remove_one-false j id xs a

  pop_instance-IsSound :
      (id : ℕ) (s : Slots)
      → contains id s.instances ≡ true
      → IsSound s
      → IsSound (pop_instance id s)
  unfolding pop_instance
  pop_instance-IsSound id s h (p, d, a) = (
    omega (arith, p, length-remove_one id s.instances h),
    remove_one-Distinct id s.instances d,
    pop-Absent s.claiming id s.instances a,
  )

  finish_stop-IsSound :
      (ok : Bool) (id : ℕ) (s : Slots)
      → contains id s.stopping ≡ true
      → IsSound s
      → IsSound (finish_stop ok id s)
  unfolding finish_stop
  finish_stop-IsSound true id s h (p, d, a) =
      (omega (arith, p, length-remove_one id s.stopping h), d, a)
  finish_stop-IsSound false id s h (p, d, a) =
      (omega (arith, p, length-remove_one id s.stopping h), d, a)

  leave_lock-IsSound :
      (raised : Bool) (o : Option ℕ) (s t : Slots)
      → s.claiming ≡ o
      → leave_lock raised o s ≡ some t
      → IsSound s
      → IsSound t
  unfolding leave_lock
  leave_lock-IsSound raised none s t e h sound = cc
  leave_lock-IsSound raised (some id) s t e h sound =
      subst IsSound (the_some h) (finish_claim-IsSound raised id s e sound)

  step-IsSound : (a : Action) (s t : Slots) → step a s ≡ some t → IsSound s → IsSound t
  unfolding step
  step-IsSound (arrived id) s t h sound =
      let (g, e) = when-eq h in subst IsSound e (arrive-IsSound id s sound)
  step-IsSound (left id) s t h sound =
      let (g, e) = when-eq h in subst IsSound e (leave-IsSound id s sound)
  step-IsSound (acquired id) s t h sound =
      let (g, e) = when-eq h in
      subst IsSound e (acquire-IsSound id s (ltb→lt 0 s.free (&&-eq_true _ _ g).0) sound)
  step-IsSound (found_raised id) s t h sound =
      let (g, e) = when-eq h in
      subst IsSound e (give_up-IsSound id s (&&-eq_true _ _ (&&-eq_true _ _ g).0).0 sound)
  step-IsSound (asked id) s t h sound =
      let (g, e) = when-eq h in
      let (enter, fresh) = &&-eq_true (may_enter id s) _ g in
      let (waits, free) = &&-eq_true (contains id s.waiting) _ enter in
      subst IsSound e
        (ask-IsSound id s waits (some_id-free s.claiming free) (not-eq_true _ fresh) sound)
  step-IsSound (answered c) s t h sound = leave_lock-IsSound (is_ours c) s.claiming s t refl h sound
  step-IsSound claim_failed s t h sound = leave_lock-IsSound false s.claiming s t refl h sound
  step-IsSound (cancelled id) s t h sound =
      let (g, e) = when-eq h in subst IsSound e (give_up-IsSound id s g sound)
  step-IsSound (popped id) s t h sound =
      let (g, e) = when-eq h in subst IsSound e (pop_instance-IsSound id s g sound)
  step-IsSound (released id) s t h sound =
      let (g, e) = when-eq h in subst IsSound e (finish_stop-IsSound true id s g sound)
  step-IsSound (release_failed id) s t h sound =
      let (g, e) = when-eq h in subst IsSound e (finish_stop-IsSound false id s g sound)

  init-IsSound : IsSound (init n)
  unfolding init
  init-IsSound = (omega arith, tt, tt)

  -- In every state that a runner with `n` slots can come to, each of the `n` permits is free, kept
  -- by a raised instance, held by one raise or stop under way, or lost to a stop that failed; no
  -- instance is raised twice; and the one that a task is claiming is not raised.
  pub Reachable-IsSound : {s : Slots} → Reachable n s → IsSound s
  Reachable-IsSound start = init-IsSound
  Reachable-IsSound (next {s = s} {t = t} a r h) = step-IsSound a s t h (Reachable-IsSound r)

  -- A runner never has more instances raised than it has slots, and no instance twice.
  pub busy-le_slots : (s : Slots) → Reachable n s → (busy s ≤ n) × Distinct s.instances
  busy-le_slots s r = let (p, d, a) = Reachable-IsSound r in (omega (arith, p), d)

-- No raise and no stop is under way.
abbrev pub IsQuiet : Slots → Type 0
IsQuiet s = (s.waiting ≡ []) × (s.claiming ≡ none) × (s.stopping ≡ [])

-- When no raise and no stop is under way, as many slots are free as are not raised, less one for
-- every stop that failed: a runner without failed stops has lost none.
pub free-of_quiet : (n : ℕ) (s : Slots) → Reachable n s → IsQuiet s → s.free + busy s + s.lost ≡ n
free-of_quiet n s r (w, c, e) =
    omega (arith, (Reachable-IsSound n r).0, ap length w, ap holders c, ap length e)
