-- ===== src/Middleware/TokenBudget/Once.antt =====
-- core/middleware/token_budget.py: no usage is counted twice.
use git_agent.Base.{
  Text, Option, none, some, List, [], ◌∷◌, ◌≡◌, refl, arith, or_else, get, get-put, put-get_self,
  nat_eq, list_eq, ==-iff_eq, ==_refl, ℕ, zero, suc, ◌+◌, ◌-◌, ◌≤◌, max, ℤ, pos, negsuc, All, inl,
  inr, Option-cases,
}
use git_agent.Message.{Message, Usage, ai, tool, human, system}
use git_agent.Middleware.TokenBudget.{
  Budget, count_usage, observe_total, observe_usage, observe, observe_all,
}

-- The number `n` is in the table under the id, or a larger one.
abbrev Seen : Budget → Text → ℕ → Type 0
Seen s id n = n ≤ or_else (get id s.seen) 0

-- The usage of a message is in the table, or it has none to count.
abbrev CountedTotal : Budget → Text → ℤ → Type 0
CountedTotal s id (pos zero) = Unit
CountedTotal s id (pos (suc n)) = Seen s id (suc n)
CountedTotal s id (negsuc n) = Unit

abbrev CountedUsage : Budget → Option Text → Option Usage → Type 0
CountedUsage s none usage = Unit
CountedUsage s (some id) none = Unit
CountedUsage s (some id) (some usage) = CountedTotal s id usage.total_tokens

abbrev Counted : Budget → Message → Type 0
Counted s (ai m) = CountedUsage s m.id m.usage_metadata
Counted s _ = Unit

count_usage-grows :
    (s : Budget) (id : Text) (n : ℕ) (j : Text) (k : ℕ) → Seen s j k → Seen (count_usage s id n) j k
unfolding count_usage
count_usage-grows s id n j k h =
    ground (arith, get-put id j (max n (or_else (get id s.seen) 0)) s.seen, ==-iff_eq id j)

count_usage-Seen : (s : Budget) (id : Text) (n : ℕ) → Seen (count_usage s id n) id n
unfolding count_usage
count_usage-Seen s id n =
    rw (get-put id id (max n (or_else (get id s.seen) 0)) s.seen, ==_refl id) (omega arith)

-- Observing what is counted changes nothing.
count_usage_again :
    (s : Budget) (id : Text) (n : ℕ) → Seen s id (suc n) → count_usage s id (suc n) ≡ s
unfolding count_usage
count_usage_again s id n h = elim (Option-cases (get id s.seen)) [
  | inl e ↦ absurd (ground arith)
  | inr (v, e) ↦
      let le : suc n ≤ v = rw e at h in
      let largest : max (suc n) v ≡ v = omega arith in
      let same : s.total + (suc n - v) ≡ s.total = omega arith in
      rw e (rw (largest, put-get_self id v s.seen e, same))
]

-- Whatever `s` has seen, `t` has seen.
abbrev Grows : Budget → Budget → Type 0
Grows s t = (j : Text) (k : ℕ) → Seen s j k → Seen t j k

observe_total-Grows : (s : Budget) (id : Text) (z : ℤ) → Grows s (observe_total s id z)
unfolding observe_total
observe_total-Grows s id (pos zero) j k h = h
observe_total-Grows s id (pos (suc n)) j k h = count_usage-grows s id (suc n) j k h
observe_total-Grows s id (negsuc n) j k h = h

observe_usage-Grows :
    (s : Budget) (id : Option Text) (usage : Option Usage) → Grows s (observe_usage s id usage)
unfolding observe_usage
observe_usage-Grows s none usage j k h = h
observe_usage-Grows s (some id) none j k h = h
observe_usage-Grows s (some id) (some usage) j k h =
    observe_total-Grows s id usage.total_tokens j k h

observe-Grows : (s : Budget) (m : Message) → Grows s (observe s m)
unfolding observe
observe-Grows s (ai m) j k h = observe_usage-Grows s m.id m.usage_metadata j k h
observe-Grows s (tool m) j k h = h
observe-Grows s (human m) j k h = h
observe-Grows s (system m) j k h = h

CountedTotal-Grows :
    (s t : Budget) (id : Text) (z : ℤ) → Grows s t → CountedTotal s id z → CountedTotal t id z
CountedTotal-Grows s t id (pos zero) g h = tt
CountedTotal-Grows s t id (pos (suc n)) g h = g id (suc n) h
CountedTotal-Grows s t id (negsuc n) g h = tt

CountedUsage-Grows :
    (s t : Budget) (id : Option Text) (usage : Option Usage)
    → Grows s t
    → CountedUsage s id usage
    → CountedUsage t id usage
CountedUsage-Grows s t none usage g h = tt
CountedUsage-Grows s t (some id) none g h = tt
CountedUsage-Grows s t (some id) (some usage) g h = CountedTotal-Grows s t id usage.total_tokens g h

Counted-Grows : (s t : Budget) (m : Message) → Grows s t → Counted s m → Counted t m
Counted-Grows s t (ai m) g h = CountedUsage-Grows s t m.id m.usage_metadata g h
Counted-Grows s t (tool m) g h = tt
Counted-Grows s t (human m) g h = tt
Counted-Grows s t (system m) g h = tt

observe_total-Counted : (s : Budget) (id : Text) (z : ℤ) → CountedTotal (observe_total s id z) id z
unfolding observe_total
observe_total-Counted s id (pos zero) = tt
observe_total-Counted s id (pos (suc n)) = count_usage-Seen s id (suc n)
observe_total-Counted s id (negsuc n) = tt

observe_usage-Counted :
    (s : Budget) (id : Option Text) (usage : Option Usage)
    → CountedUsage (observe_usage s id usage) id usage
unfolding observe_usage
observe_usage-Counted s none usage = tt
observe_usage-Counted s (some id) none = tt
observe_usage-Counted s (some id) (some usage) = observe_total-Counted s id usage.total_tokens

observe-Counted : (s : Budget) (m : Message) → Counted (observe s m) m
unfolding observe
observe-Counted s (ai m) = observe_usage-Counted s m.id m.usage_metadata
observe-Counted s (tool m) = tt
observe-Counted s (human m) = tt
observe-Counted s (system m) = tt

observe_total_again :
    (s : Budget) (id : Text) (z : ℤ) → CountedTotal s id z → observe_total s id z ≡ s
unfolding observe_total
observe_total_again s id (pos zero) h = refl
observe_total_again s id (pos (suc n)) h = count_usage_again s id n h
observe_total_again s id (negsuc n) h = refl

observe_usage_again :
    (s : Budget) (id : Option Text) (usage : Option Usage)
    → CountedUsage s id usage
    → observe_usage s id usage ≡ s
unfolding observe_usage
observe_usage_again s none usage h = refl
observe_usage_again s (some id) none h = refl
observe_usage_again s (some id) (some usage) h = observe_total_again s id usage.total_tokens h

observe_again : (s : Budget) (m : Message) → Counted s m → observe s m ≡ s
unfolding observe
observe_again s (ai m) h = observe_usage_again s m.id m.usage_metadata h
observe_again s (tool m) h = refl
observe_again s (human m) h = refl
observe_again s (system m) h = refl

observe_all-Grows : (s : Budget) (ms : List Message) → Grows s (observe_all s ms)
unfolding observe_all
observe_all-Grows s [] j k h = h
observe_all-Grows s (m ∷ ms) j k h =
    observe_all-Grows (observe s m) ms j k (observe-Grows s m j k h)

observe_all-Counted : (s : Budget) (ms : List Message) → All (Counted (observe_all s ms)) ms
unfolding observe_all
observe_all-Counted s [] = tt
observe_all-Counted s (m ∷ ms) = (
  Counted-Grows (observe s m) (observe_all (observe s m) ms) m (observe_all-Grows (observe s m) ms)
      (observe-Counted s m),
  observe_all-Counted (observe s m) ms,
)

observe_all_again : (s : Budget) (ms : List Message) → All (Counted s) ms → observe_all s ms ≡ s
unfolding observe_all
observe_all_again s [] h = refl
observe_all_again s (m ∷ ms) h = rw (observe_again s m h.0) (observe_all_again s ms h.1)

-- However often the loop of `after_model` goes over messages that it has gone over, nothing is
-- counted again: the table, the total and all else are what one pass leaves.
pub observe_all_idem :
    (s : Budget) (ms : List Message) → observe_all (observe_all s ms) ms ≡ observe_all s ms
observe_all_idem s ms = observe_all_again (observe_all s ms) ms (observe_all-Counted s ms)
