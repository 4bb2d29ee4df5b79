-- ===== src/Middleware/TokenBudget/Accounting.antt =====
-- core/middleware/token_budget.py: the total is the sum of the table of seen usage.
use git_agent.Base.{
  Text, Option, none, some, List, [], ◌∷◌, ◌≡◌, arith, or_else, Dict, get, put, nat_eq, list_eq, ℕ,
  zero, suc, ◌+◌, max, ℤ, pos, negsuc,
}
use git_agent.Message.{Message, Usage, ai, tool, human, system}
use git_agent.Middleware.TokenBudget.{
  Budget, count_usage, observe_total, observe_usage, observe, observe_all,
}

-- The sum of what is seen.
abbrev pub seen_sum : Dict Text ℕ → ℕ
seen_sum [] = 0
seen_sum ((k, v) ∷ d) = v + seen_sum d

seen_sum-put :
    (k : Text) (v : ℕ) (d : Dict Text ℕ)
    → seen_sum (put k v d) + or_else (get k d) 0 ≡ seen_sum d + v
unfolding put get
seen_sum-put k v [] = omega arith
seen_sum-put k v ((j, w) ∷ d) = ground (arith, seen_sum-put k v d)

-- The total is what the table of seen usage adds up to.
abbrev pub Balanced : Budget → Type 0
Balanced s = s.total ≡ seen_sum s.seen

count_usage-Balanced : (s : Budget) (id : Text) (n : ℕ) → Balanced s → Balanced (count_usage s id n)
unfolding count_usage
count_usage-Balanced s id n h =
    omega (arith, seen_sum-put id (max n (or_else (get id s.seen) 0)) s.seen)

observe_total-Balanced :
    (s : Budget) (id : Text) (z : ℤ) → Balanced s → Balanced (observe_total s id z)
unfolding observe_total
observe_total-Balanced s id (pos zero) h = h
observe_total-Balanced s id (pos (suc n)) h = count_usage-Balanced s id (suc n) h
observe_total-Balanced s id (negsuc n) h = h

observe_usage-Balanced :
    (s : Budget) (id : Option Text) (usage : Option Usage)
    → Balanced s
    → Balanced (observe_usage s id usage)
unfolding observe_usage
observe_usage-Balanced s none usage h = h
observe_usage-Balanced s (some id) none h = h
observe_usage-Balanced s (some id) (some usage) h = observe_total-Balanced s id usage.total_tokens h

observe-Balanced : (s : Budget) (m : Message) → Balanced s → Balanced (observe s m)
unfolding observe
observe-Balanced s (ai m) h = observe_usage-Balanced s m.id m.usage_metadata h
observe-Balanced s (tool m) h = h
observe-Balanced s (human m) h = h
observe-Balanced s (system m) h = h

pub observe_all-Balanced :
    (s : Budget) (ms : List Message) → Balanced s → Balanced (observe_all s ms)
unfolding observe_all
observe_all-Balanced s [] h = h
observe_all-Balanced s (m ∷ ms) h = observe_all-Balanced (observe s m) ms (observe-Balanced s m h)
