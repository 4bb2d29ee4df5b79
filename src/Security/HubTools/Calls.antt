-- ===== src/Security/HubTools/Calls.antt =====
-- The calls of the two tools in a turn, in any order: report_finding begins, a call that has begun
-- goes on, and write_report.
pub mod Rows
pub mod Saved
use git_agent.Base.{
  Text, codes, Bool, true, false, Option, none, some, List, [], ◌∷◌, ◌++◌, ◌>>=◌, ◌≡◌, refl, inl,
  inr, ◌⊎◌, is_nil, strip, ℕ, zero, suc, contains, if◌then◌else◌, nat_eq, list_eq, list_beq,
}
use git_agent.Security.Finding.{Finding, severities, finding_from_args, validate_finding}
use git_agent.Security.Blame.{Blame}
use git_agent.Security.Blame.Resolver.{Caches}
use git_agent.Security.Collect.Result.{finding_from_args-IsNormal}
use git_agent.Security.Report.{Reported, WriteReportArgs, severity_or_info}
use git_agent.Security.HubTools.{
  FindingArgs, Turn, ToolsState, CallProgress, answered, raised, storing, kwargs, resolve_finding,
  report_finding, record_blamed, record_read, after_validation, begin_report_finding,
  end_report_finding, write_report, structured_of, build_hub_security_tools,
}
use git_agent.Security.Report.Render.{render_report_markdown}
use git_agent.Hub.Findings.{ResultTables, add_report}

pub data Call : Type 0 where
  begins : FindingArgs → Call
  goes_on : ℕ → Bool → Call
  writes : Bool → WriteReportArgs → Call

-- The calls that have a finding to store, and the findings whose row failed.
pub record InTurn : Type 0 where
  pub tools : ToolsState
  pub pending : List (Reported × Text)
  pub lost : List Reported

unfoldable pub new_turn : ResultTables → InTurn
new_turn tables = record { tools = build_hub_security_tools tables; pending = []; lost = [] }

unfoldable pub begun : CallProgress × ToolsState → InTurn → InTurn
begun (storing r answer, s) u = record u { tools = s; pending = u.pending ++ (r, answer) ∷ [] }
begun (_, s) u = record u { tools = s }

unfoldable pub pick : {A : Type 0} → ℕ → List A → Option (A × List A)
pick n [] = none
pick zero (x ∷ xs) = some (x, xs)
pick (suc n) (x ∷ xs) = pick n xs >>= λ (y, ys). some (y, x ∷ ys)

unfoldable pub gone_on :
    Turn → Bool → Option ((Reported × Text) × List (Reported × Text)) → InTurn → InTurn
gone_on t up none u = u
gone_on t up (some ((r, answer), rest)) u = record {
  tools = (end_report_finding t up r answer u.tools).1;
  pending = rest;
  lost = if up then u.lost else r ∷ u.lost;
}

unfoldable pub step : Turn → Call → InTurn → InTurn
step t (begins a) u = begun (begin_report_finding t a u.tools) u
step t (goes_on n up) u = gone_on t up (pick n u.pending) u
step t (writes up args) u = record u { tools = (write_report t up args u.tools).1 }

unfoldable pub run : Turn → List Call → InTurn → InTurn
run t [] u = u
run t (c ∷ cs) u = run t cs (step t c u)

abbrev pub IsListed : Reported → Type 0
IsListed r = contains (severity_or_info r.finding.severity) severities ≡ true

-- What the first half of a call does: it records the finding that is to be stored, or nothing.
abbrev pub Began : CallProgress × ToolsState → ToolsState → Type 0
Began (storing r answer, s') s =
    IsListed r × (s'.recorded ≡ s.recorded ++ r ∷ []) × (s'.tables ≡ s.tables)
Began (_, s') s = s' ≡ s

listed_severity :
    (s : Text) → contains s severities ≡ true → contains (severity_or_info s) severities ≡ true
unfolding severities codes list_beq
listed_severity [] h = refl
listed_severity (c ∷ s) h = h

record_blamed-Began :
    (result : Text) (f : Finding) (o : Option (Blame × Caches)) (s : ToolsState)
    → contains f.severity severities ≡ true
    → Began (record_blamed result f o s) s
unfolding record_blamed
record_blamed-Began result f none s h = refl
record_blamed-Began result f (some (blame, c)) s h = (listed_severity f.severity h, refl, refl)

record_read-Began :
    (t : Turn) (result : Text) (a : FindingArgs) (o : Option Finding) (s : ToolsState)
    → finding_from_args t.host (kwargs a) ≡ o
    → Began (record_read t result o s) s
unfolding record_read
record_read-Began t result a none s e = refl
record_read-Began t result a (some f) s e =
    record_blamed-Began result f (resolve_finding t f s.caches) s
      (finding_from_args-IsNormal t.host (kwargs a) f e).0

after_validation-Began :
    (t : Turn) (a : FindingArgs) (o : Option Text) (s : ToolsState)
    → Began (after_validation t a o s) s
unfolding after_validation
after_validation-Began t a (some error) s = refl
after_validation-Began t a none s = record_read-Began t (report_finding t.host a) a _ s refl

pub begin_report_finding-Began :
    (t : Turn) (a : FindingArgs) (s : ToolsState) → Began (begin_report_finding t a s) s
unfolding begin_report_finding
begin_report_finding-Began t a s =
    after_validation-Began t a (validate_finding t.host a.title a.severity a.file) s

-- write_report changes nothing, or saves the report of what is recorded.
abbrev pub Wrote : Turn → WriteReportArgs → ToolsState → ToolsState → Type 0
Wrote t args s s' =
    let x = structured_of t args s in
    (s' ≡ s)
    ⊎ (s' ≡ record s {
      tables = (add_report t.instance_id t.event_id (render_report_markdown x) x s.tables).0;
    })

if_both {ℓ κ} :
    {A : Type ℓ} (P : A → Type κ) (b : Bool) (x y : A) → P x → P y → P (if b then x else y)
if_both P true x y px py = px
if_both P false x y px py = py

pub write_report-Wrote :
    (t : Turn) (up : Bool) (args : WriteReportArgs) (s : ToolsState)
    → Wrote t args s (write_report t up args s).1
unfolding write_report
write_report-Wrote t up args s =
    if_both {A = CallProgress × ToolsState} (λ o. Wrote t args s o.1) (is_nil (strip args.summary))
      _ _ (inl refl)
      (if_both {A = CallProgress × ToolsState} (λ o. Wrote t args s o.1) up _ _ (inr refl)
        (inl refl))
