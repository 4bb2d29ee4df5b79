-- ===== src/Security/HubTools/Calls/Rows.antt =====
-- The rows of the findings of a turn.
use git_agent.Base.{
  Text, Bool, true, false, Option, none, some, List, [], ◌∷◌, ◌++◌, ◌>>=◌, ◌≡◌, refl, sym, ap, ◌∙◌,
  subst, inl, inr, ℕ, ◌+◌, zero, suc, if◌then◌else◌, arith,
}
use git_agent.Hub.Findings.{FindingRow, ResultTables, finding_row, add_finding}
use git_agent.Hub.Findings.Unchanged.{add_finding-Agrees, add_report-Agrees}
use git_agent.Security.Report.{Reported, WriteReportArgs}
use git_agent.Security.HubTools.{
  Turn, ToolsState, CallProgress, answered, raised, storing, end_report_finding, write_report,
  structured_of, build_hub_security_tools,
}
use git_agent.Security.HubTools.Calls.{
  Call, begins, goes_on, writes, InTurn, begun, pick, gone_on, step, run, Began,
  begin_report_finding-Began, new_turn, write_report-Wrote,
}

abbrev pub one_if : Bool → ℕ
one_if b = if b then 1 else 0

-- How many elements pass the test.
abbrev pub number : {A : Type 0} → (A → Bool) → List A → ℕ
number p [] = 0
number p (x ∷ xs) = one_if (p x) + number p xs

number-append :
    {A : Type 0} (p : A → Bool) (xs ys : List A) → number p (xs ++ ys) ≡ number p xs + number p ys
number-append p [] ys = omega arith
number-append p (x ∷ xs) ys = omega (arith, number-append p xs ys)

-- What is picked and what is left are the whole list.
abbrev IsSplit : {A : Type 0} → (A → Bool) → List A → Option (A × List A) → Type 0
IsSplit p xs none = Unit
IsSplit p xs (some (x, rest)) = number p xs ≡ one_if (p x) + number p rest

pick-IsSplit : {A : Type 0} (p : A → Bool) (n : ℕ) (xs : List A) → IsSplit p xs (pick n xs)
unfolding pick
pick-IsSplit p n [] = tt
pick-IsSplit p zero (x ∷ xs) = refl
pick-IsSplit {A = A} p (suc n) (x ∷ xs) = later (pick n xs) (pick-IsSplit p n xs)
  where
    later :
        (o : Option (A × List A))
        → IsSplit p xs o
        → IsSplit p (x ∷ xs) (o >>= λ (y, ys). some (y, x ∷ ys))
    later none h = tt
    later (some (y, ys)) h = omega (arith, h)

module _ (t : Turn) (has_v2 : Bool) (p : FindingRow → Bool) where
  abbrev pub passes : Reported → Bool
  passes r = p (finding_row has_v2 t.instance_id t.event_id r)

  -- The rows, and what is on its way to a row or lost, against what is recorded.
  abbrev stored_or_not : InTurn → ℕ
  stored_or_not u =
      number p u.tools.tables.findings + number (λ e. passes e.0) u.pending + number passes u.lost

  abbrev pub IsBalanced : ℕ → InTurn → Type 0
  IsBalanced before u =
      (u.tools.tables.has_v2 ≡ has_v2) × (stored_or_not u ≡ before + number passes u.tools.recorded)

  begun-IsBalanced :
      (before : ℕ) (o : CallProgress × ToolsState) (u : InTurn)
      → Began o u.tools
      → IsBalanced before u
      → IsBalanced before (begun o u)
  unfolding begun
  begun-IsBalanced before (storing r answer, s) u (listed, recorded, tables) (has, h) = (
    ap (λ x. x.has_v2) tables ∙ has,
    omega (
      arith,
      h,
      ap (λ x. number p x.findings) tables,
      ap (number passes) recorded,
      number-append passes u.tools.recorded (r ∷ []),
      number-append (λ e. passes e.0) u.pending ((r, answer) ∷ []),
    ),
  )
  begun-IsBalanced before (answered text, s) u same h =
      subst (λ x. IsBalanced before (record u { tools = x })) (sym same) h
  begun-IsBalanced before (raised, s) u same h =
      subst (λ x. IsBalanced before (record u { tools = x })) (sym same) h

  gone_on-IsBalanced :
      (before : ℕ) (up : Bool) (o : Option ((Reported × Text) × List (Reported × Text)))
      (u : InTurn)
      → IsSplit (λ e. passes e.0) u.pending o
      → IsBalanced before u
      → IsBalanced before (gone_on t up o u)
  unfolding gone_on end_report_finding add_finding
  gone_on-IsBalanced before up none u e h = h
  gone_on-IsBalanced before true (some ((r, answer), rest)) u e (has, h) =
      let tables = u.tools.tables in
      (
        (add_finding-Agrees t.instance_id r t.event_id tables).1 ∙ has,
        omega (
          arith,
          h,
          e,
          number-append p tables.findings
              (finding_row tables.has_v2 t.instance_id t.event_id r ∷ []),
          ap (λ b. one_if (p (finding_row b t.instance_id t.event_id r))) has,
        ),
      )
  gone_on-IsBalanced before false (some ((r, answer), rest)) u e (has, h) =
      (has, omega (arith, h, e))

  write_report-IsBalanced :
      (before : ℕ) (up : Bool) (args : WriteReportArgs) (u : InTurn)
      → IsBalanced before u
      → IsBalanced before (record u { tools = (write_report t up args u.tools).1 })
  write_report-IsBalanced before up args u (has, h) = elim (write_report-Wrote t up args u.tools) [
    | inl same ↦ subst (λ x. IsBalanced before (record u { tools = x })) (sym same) (has, h)
    | inr saved ↦
        let (findings, has_same, _) =
          add_report-Agrees t.instance_id t.event_id _ (structured_of t args u.tools)
            u.tools.tables in
        subst (λ x. IsBalanced before (record u { tools = x })) (sym saved)
          (has_same ∙ has, omega (arith, h, ap (number p) findings))
  ]

  step-IsBalanced :
      (before : ℕ) (c : Call) (u : InTurn) → IsBalanced before u → IsBalanced before (step t c u)
  unfolding step
  step-IsBalanced before (begins a) u h =
      begun-IsBalanced before _ u (begin_report_finding-Began t a u.tools) h
  step-IsBalanced before (goes_on n up) u h =
      gone_on-IsBalanced before up _ u (pick-IsSplit (λ e. passes e.0) n u.pending) h
  step-IsBalanced before (writes up args) u h = write_report-IsBalanced before up args u h

  run-IsBalanced :
      (before : ℕ) (cs : List Call) (u : InTurn)
      → IsBalanced before u
      → IsBalanced before (run t cs u)
  unfolding run
  run-IsBalanced before [] u h = h
  run-IsBalanced before (c ∷ cs) u h =
      run-IsBalanced before cs (step t c u) (step-IsBalanced before c u h)

-- Whatever the agents of a turn call and in whichever order the calls go on, each finding that is
-- recorded is once in a row of the hub, on its way to one, or lost with a store that failed, and
-- the hub has no other new rows: the numbers agree for all rows that pass any given test.
pub run-rows :
    (t : Turn) (cs : List Call) (tables : ResultTables) (p : FindingRow → Bool)
    → let u = run t cs (new_turn tables) in
      number p u.tools.tables.findings
        + number (λ e. passes t tables.has_v2 p e.0) u.pending
        + number (passes t tables.has_v2 p) u.lost
      ≡ number p tables.findings + number (passes t tables.has_v2 p) u.tools.recorded
unfolding new_turn build_hub_security_tools
run-rows t cs tables p =
    (run-IsBalanced t tables.has_v2 p (number p tables.findings) cs (new_turn tables)
      (refl, omega arith)).1
