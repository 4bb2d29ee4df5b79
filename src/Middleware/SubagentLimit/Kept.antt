-- ===== src/Middleware/SubagentLimit/Kept.antt =====
-- Which calls the delegation limit keeps.
use git_agent.Base.{
  Text, Bool, true, false, Option, List, [], ◌∷◌, ◌≡◌, refl, sym, ap, ◌∙◌, subst, arith, All,
  All-map, All-intro, ◌||◌, not, contains, contains-to_set, filter_by, take, length, Distinct,
  to_set, nat_eq, list_eq, option_eq, ==_refl, if◌then◌else◌, ℕ, zero, suc, Bool-cases, inl, inr,
  ◌≤◌,
}
use git_agent.Message.{AiMessage, ToolCall}
use git_agent.Middleware.Clone.{kept_calls}
use git_agent.Middleware.SubagentLimit.{is_task, task_calls, call_ids, kept_ids}
use git_agent.Middleware.SubagentLimit.Sublist.{
  Sub, done, skip, keep, Apart-of_absent, Apart-contains, filter_by_congr, filter_by-Sub,
}

-- The specification: the first `n` delegations and every other call, in order.
abbrev pub keep_tasks : ℕ → List ToolCall → List ToolCall
keep_tasks n [] = []
keep_tasks zero (c ∷ cs) = let rest = keep_tasks zero cs in if is_task c then rest else c ∷ rest
keep_tasks (suc n) (c ∷ cs) =
    let fewer = keep_tasks n cs in
    let rest = keep_tasks (suc n) cs in if is_task c then c ∷ fewer else c ∷ rest

keep_tasks-Sub : (n : ℕ) (cs : List ToolCall) → Sub (keep_tasks n cs) cs
keep_tasks-Sub n [] = done
keep_tasks-Sub zero (c ∷ cs) = elim (Bool-cases (is_task c)) [
  | inl t ↦ rw t (skip c (keep_tasks-Sub zero cs))
  | inr o ↦ rw o (keep c (keep_tasks-Sub zero cs))
]
keep_tasks-Sub (suc n) (c ∷ cs) = elim (Bool-cases (is_task c)) [
  | inl t ↦ rw t (keep c (keep_tasks-Sub n cs))
  | inr o ↦ rw o (keep c (keep_tasks-Sub (suc n) cs))
]

-- Of the delegations, `keep_tasks` keeps the first `n`.
pub task_calls-keep_tasks :
    (n : ℕ) (cs : List ToolCall) → task_calls (keep_tasks n cs) ≡ take n (task_calls cs)
task_calls-keep_tasks zero [] = refl
task_calls-keep_tasks (suc n) [] = refl
task_calls-keep_tasks zero (c ∷ cs) = elim (Bool-cases (is_task c)) [
  | inl t ↦ rw (t) (task_calls-keep_tasks zero cs)
  | inr o ↦ rw (o, o) (task_calls-keep_tasks zero cs)
]
task_calls-keep_tasks (suc n) (c ∷ cs) = elim (Bool-cases (is_task c)) [
  | inl t ↦ rw (t, t) (ap (λ r. c ∷ r) (task_calls-keep_tasks n cs))
  | inr o ↦ rw (o, o) (task_calls-keep_tasks (suc n) cs)
]

-- With room for every delegation nothing is dropped.
pub keep_tasks_all :
    (n : ℕ) (cs : List ToolCall) → length (task_calls cs) ≤ n → keep_tasks n cs ≡ cs
keep_tasks_all n [] h = refl
keep_tasks_all zero (c ∷ cs) h = ground (arith, keep_tasks_all zero cs)
keep_tasks_all (suc n) (c ∷ cs) h = ground (arith, keep_tasks_all n cs, keep_tasks_all (suc n) cs)

-- The test by which a call's id is kept, once the ids of the chosen delegations are known.
abbrev id_kept : List (Option Text) → ToolCall → Bool
id_kept ids c = not (is_task c) || contains c.id ids

id_kept_apart :
    (c : ToolCall) (ts cs : List ToolCall)
    → contains c.id (call_ids cs) ≡ false
    → All (λ x. id_kept (call_ids (c ∷ ts)) x ≡ id_kept (call_ids ts) x) cs
id_kept_apart c ts cs h =
    All-map cs (λ x p. ap (λ b. not (is_task x) || b) p)
      (Apart-contains (λ c. c.id) c ts cs (Apart-of_absent (λ c. c.id) c.id cs h))

task_calls-cons :
    (c : ToolCall) (cs : List ToolCall) → is_task c ≡ true → task_calls (c ∷ cs) ≡ c ∷ task_calls cs
task_calls-cons c cs t = rw t

task_calls-drop :
    (c : ToolCall) (cs : List ToolCall) → is_task c ≡ false → task_calls (c ∷ cs) ≡ task_calls cs
task_calls-drop c cs o = rw o

keep_tasks_by_id :
    (n : ℕ) (cs ts : List ToolCall)
    → ts ≡ take n (task_calls cs)
    → Distinct (call_ids cs)
    → filter_by (id_kept (call_ids ts)) cs ≡ keep_tasks n cs
keep_tasks_by_id n [] ts e d = refl
keep_tasks_by_id zero (c ∷ cs) ts e d =
    subst (λ us. filter_by (id_kept (call_ids us)) (c ∷ cs) ≡ keep_tasks zero (c ∷ cs)) (sym e)
      (elim (Bool-cases (is_task c)) [
        | inl t ↦ rw t (keep_tasks_by_id zero cs [] refl d.1)
        | inr o ↦ rw o (ap (λ r. c ∷ r) (keep_tasks_by_id zero cs [] refl d.1))
      ])
keep_tasks_by_id (suc n) (c ∷ cs) ts e d = elim (Bool-cases (is_task c)) [
  | inl t ↦
      let us : List ToolCall = take n (task_calls cs) in
      subst (λ vs. filter_by (id_kept (call_ids vs)) (c ∷ cs) ≡ keep_tasks (suc n) (c ∷ cs))
        (sym (e ∙ ap (take (suc n)) (task_calls-cons c cs t)))
        (rw (t, ==_refl c.id)
          (ap (λ r. c ∷ r)
            (filter_by_congr (λ c. c.id) _ _ cs (id_kept_apart c us cs d.0)
              ∙ keep_tasks_by_id n cs us refl d.1)))
  | inr o ↦ rw o (
      ap (λ r. c ∷ r)
        (keep_tasks_by_id (suc n) cs ts (e ∙ ap (take (suc n)) (task_calls-drop c cs o)) d.1))
]

id_kept-to_set : (ids : List (Option Text)) (c : ToolCall) → id_kept (to_set ids) c ≡ id_kept ids c
id_kept-to_set ids c = ap (λ b. not (is_task c) || b) (contains-to_set c.id ids)

-- The clone keeps exactly the first `n` delegations and every other call.
pub kept_calls-keep_tasks :
    (n : ℕ) (last : AiMessage)
    → Distinct (call_ids last.tool_calls)
    → kept_calls last (kept_ids n last.tool_calls) ≡ keep_tasks n last.tool_calls
unfolding kept_calls kept_ids
kept_calls-keep_tasks n last d =
    let cs : List ToolCall = last.tool_calls in
    let ids : List (Option Text) = call_ids (take n (task_calls cs)) in
    let by_ids : filter_by (id_kept (to_set ids)) cs ≡ keep_tasks n cs =
      filter_by_congr (λ c. c.id) _ _ cs (All-intro _ cs (id_kept-to_set ids))
      ∙ keep_tasks_by_id n cs (take n (task_calls cs)) refl d in
    rw by_ids (
      filter_by_congr (λ c. c.id) _ _ cs
        (All-intro _ cs (λ c. contains-to_set c.id (call_ids (keep_tasks n cs))))
      ∙ filter_by-Sub (λ c. c.id) (keep_tasks-Sub n cs) d)
