-- ===== src/Subagents/Capacity/Bounds.antt =====
-- What the admission promises: bounded running, bounded waiting, no permit lost.
use git_agent.Base.{
  Bool, true, false, none, some, ◌≡◌, refl, subst, ℕ, ◌+◌, ◌-◌, ◌≤◌, ◌<◌, ◌&&◌, not, leb, ltb,
  nat_eq, the_some, ◌⊎◌, arith,
}
use git_agent.Subagents.Capacity.{
  Capacity, init, Action, comes, acquires, gives_up, leaves, is_locked, with_counts, admit, when,
  step, Reachable, start, next,
}

-- Every permit is free or with one that runs, and the queue is within its limit.
abbrev pub IsBounded : (max_running max_queued : ℕ) → Capacity → Type 0
IsBounded r q c =
    (c.free + c.running ≡ r) × (c.queued ≤ q) × (c.max_running ≡ r) × (c.max_queued ≡ q)

when-eq : (b : Bool) (c d : Capacity) → when b c ≡ some d → (b ≡ true) × (c ≡ d)
when-eq true c d h = (refl, the_some h)
when-eq false c d h = cc

when-none : (b : Bool) (c : Capacity) → when b c ≡ none → b ≡ false
when-none true c h = cc
when-none false c h = refl

when-true : (b : Bool) (c : Capacity) → b ≡ true → when b c ≡ some c
when-true true c h = refl
when-true false c h = cc

module _ (r q : ℕ) where
  admit-IsBounded :
      (c : Capacity)
      → not (is_locked c && leb c.max_queued c.queued) ≡ true
      → IsBounded r q c
      → IsBounded r q (admit c)
  unfolding admit with_counts is_locked
  admit-IsBounded c h b = ground arith

  step-IsBounded :
      (a : Action) (c d : Capacity) → step a c ≡ some d → IsBounded r q c → IsBounded r q d
  unfolding step with_counts
  step-IsBounded comes c d h b =
      let (g, e) = when-eq _ _ _ h in subst (IsBounded r q) e (admit-IsBounded c g b)
  step-IsBounded acquires c d h b =
      let (g, e) = when-eq _ _ _ h in subst (IsBounded r q) e (ground arith)
  step-IsBounded gives_up c d h b =
      let (g, e) = when-eq _ _ _ h in subst (IsBounded r q) e (ground arith)
  step-IsBounded leaves c d h b =
      let (g, e) = when-eq _ _ _ h in subst (IsBounded r q) e (ground arith)

  init-IsBounded : IsBounded r q (init r q)
  unfolding init
  init-IsBounded = (omega arith, omega arith, refl, refl)

  -- However the delegations come, wait, give up, run and leave: each of the `max_running` permits
  -- is free or with one that runs, so that no more run at a time, and no more than `max_queued`
  -- wait.
  pub Reachable-IsBounded : {c : Capacity} → Reachable r q c → IsBounded r q c
  Reachable-IsBounded start = init-IsBounded
  Reachable-IsBounded (next {c = c} {d = d} a reach h) =
      step-IsBounded a c d h (Reachable-IsBounded reach)

  full :
      (c : Capacity)
      → not (is_locked c && leb c.max_queued c.queued) ≡ false
      → IsBounded r q c
      → (c.queued ≡ q) × ((c.running ≡ r) ⊎ (0 < c.queued))
  unfolding is_locked
  full c h b = ground arith

  goes_on :
      (c : Capacity)
      → IsBounded r q c
      → 0 < r
      → c.running ≡ 0
      → 0 < c.queued
      → (ltb 0 c.queued && ltb 0 c.free) ≡ true
  goes_on c b pos idle waits = ground arith

  -- A delegation is rejected only if the queue is full, and all permits are taken or somebody
  -- waits already.
  pub rejected_when_full :
      (c : Capacity)
      → Reachable r q c
      → step comes c ≡ none
      → (c.queued ≡ q) × ((c.running ≡ r) ⊎ (0 < c.queued))
  unfolding step is_locked
  rejected_when_full c reach h = full c (when-none _ _ h) (Reachable-IsBounded reach)

  -- If somebody waits and none runs, one that waits can go on, unless the limit is 0.
  pub waiting_goes_on :
      (c : Capacity)
      → Reachable r q c
      → 0 < r
      → c.running ≡ 0
      → 0 < c.queued
      → (d : Capacity) × (step acquires c ≡ some d)
  unfolding step
  waiting_goes_on c reach pos idle waits =
      let b = Reachable-IsBounded reach in
      (
        with_counts (c.free - 1) (c.queued - 1) (c.running + 1) c,
        when-true _ _ (goes_on c b pos idle waits),
      )
