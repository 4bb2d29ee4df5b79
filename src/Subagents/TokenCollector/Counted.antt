-- ===== src/Subagents/TokenCollector/Counted.antt =====
-- What a collector has counted.
use git_agent.Base.{
  Text, true, false, Option, none, some, List, [], ◌∷◌, ◌≡◌, refl, sym, ap, ◌∙◌, subst, inl, inr, ℕ,
  ◌+◌, ◌≤◌, zero, suc, length, length-append, contains, Distinct, All, All-append, if_true,
  if_false, Bool-cases, ℤ, pos, negsuc, ◌+ℤ◌, nat_eq, list_eq, arith,
}
use git_agent.Security.Finding.{Host}
use git_agent.Subagents.TokenCollector.{
  LlmResponse, UsageRecord, SubagentTokenCollector, TotalUsage, new_collector, is_positive,
  usage_record, add_usage, on_llm_end, sum_tokens, records_usage, cumulative_usage,
}

unfoldable pub on_llm_ends :
    Host → List (Text × LlmResponse) → SubagentTokenCollector → SubagentTokenCollector
on_llm_ends h [] c = c
on_llm_ends h ((key, r) ∷ rest) c = on_llm_ends h rest (on_llm_end h key r c)

abbrev IsPaid : UsageRecord → Type 0
IsPaid u = is_positive u.total_tokens ≡ true

-- One record for each run that is counted, and each of them of some tokens.
abbrev pub IsCounted : SubagentTokenCollector → Type 0
IsCounted c =
    Distinct c.counted_run_ids
    × (length c.records ≡ length c.counted_run_ids)
    × All (λ u. is_positive u.total_tokens ≡ true) c.records

add_usage-IsCounted :
    (key : Text) (o : Option UsageRecord) (c : SubagentTokenCollector)
    → contains key c.counted_run_ids ≡ false
    → IsCounted c
    → IsCounted (add_usage key o c)
unfolding add_usage
add_usage-IsCounted key none c new h = h
add_usage-IsCounted key (some u) c new (distinct, same, paid) =
    elim (Bool-cases (is_positive u.total_tokens)) [
      | inl p ↦ subst IsCounted (sym (if_true _ _ c p)) (
        (new, distinct),
        length-append c.records (u ∷ []) ∙ omega (arith, same),
        All-append IsPaid c.records (u ∷ []) paid (p, tt),
      )
      | inr q ↦ subst IsCounted (sym (if_false _ _ c q)) (distinct, same, paid)
    ]

on_llm_end-IsCounted :
    (h : Host) (key : Text) (r : LlmResponse) (c : SubagentTokenCollector)
    → IsCounted c
    → IsCounted (on_llm_end h key r c)
unfolding on_llm_end
on_llm_end-IsCounted h key r c counted = elim (Bool-cases (contains key c.counted_run_ids)) [
  | inl p ↦ subst IsCounted (sym (if_true _ c _ p)) counted
  | inr q ↦
      subst IsCounted (sym (if_false _ c _ q))
        (add_usage-IsCounted key (usage_record h c.caller r) c q counted)
]

on_llm_ends-IsCounted :
    (h : Host) (rs : List (Text × LlmResponse)) (c : SubagentTokenCollector)
    → IsCounted c
    → IsCounted (on_llm_ends h rs c)
unfolding on_llm_ends
on_llm_ends-IsCounted h [] c counted = counted
on_llm_ends-IsCounted h ((key, r) ∷ rs) c counted =
    on_llm_ends-IsCounted h rs (on_llm_end h key r c) (on_llm_end-IsCounted h key r c counted)

-- A sum of so many positive numbers.
abbrev AtLeast : ℕ → ℤ → Type 0
AtLeast n z = (m : ℕ) × (z ≡ pos m) × (n ≤ m)

plus_positive : (n : ℕ) (a b : ℤ) → is_positive a ≡ true → AtLeast n b → AtLeast (suc n) (a +ℤ b)
unfolding is_positive
plus_positive n (pos (suc a)) b p (m, e, h) =
    (suc a + m, ap (λ z. pos (suc a) +ℤ z) e, omega (arith, h))
plus_positive n (pos zero) b p h = cc
plus_positive n (negsuc a) b p h = cc

sum_tokens-AtLeast :
    (us : List UsageRecord)
    → All IsPaid us
    → AtLeast (length us) (sum_tokens (λ u. u.total_tokens) us)
sum_tokens-AtLeast [] h = (0, refl, omega arith)
sum_tokens-AtLeast (u ∷ us) (p, h) =
    plus_positive (length us) u.total_tokens _ p (sum_tokens-AtLeast us h)

-- No usage exactly if no run is counted, and else at least a token for each.
abbrev pub UsageFits : ℕ → Option TotalUsage → Type 0
UsageFits n none = n ≡ 0
UsageFits n (some u) = (m : ℕ) × (u.total_tokens ≡ pos m) × (n ≤ m) × (1 ≤ n)

records_usage-Fits :
    (us : List UsageRecord) → All IsPaid us → UsageFits (length us) (records_usage us)
unfolding records_usage
records_usage-Fits [] h = refl
records_usage-Fits (u ∷ us) h =
    let (m, e, le) = sum_tokens-AtLeast (u ∷ us) h in (m, e, le, omega arith)

-- Whatever responses a collector is told of, in whichever order and however often: it has one record
-- for each run that it has counted, none twice, each with a positive total. There is a cumulative
-- usage exactly if a run is counted, and its total is at least one token for each of them.
pub on_llm_ends-UsageFits :
    (h : Host) (caller : Text) (rs : List (Text × LlmResponse))
    → let c = on_llm_ends h rs (new_collector caller) in
      IsCounted c × UsageFits (length c.counted_run_ids) (cumulative_usage c)
unfolding new_collector cumulative_usage
on_llm_ends-UsageFits h caller rs =
    let (distinct, same, paid) = on_llm_ends-IsCounted h rs (new_collector caller) (tt, refl, tt) in
    (
      (distinct, same, paid),
      subst (λ n. UsageFits n (records_usage (on_llm_ends h rs (new_collector caller)).records))
          same (records_usage-Fits _ paid),
    )
