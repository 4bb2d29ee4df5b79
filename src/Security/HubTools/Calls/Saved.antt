-- ===== src/Security/HubTools/Calls/Saved.antt =====
-- The reports of a turn.
use git_agent.Base.{
  Text, Bool, list_eq, nat_eq, none, some, List, ◌++◌, ◌≡◌, length, get, or_else, All,
  if◌then◌else◌,
}
use git_agent.Hub.Findings.{ReportRow}
use git_agent.Security.Finding.{severities}
use git_agent.Security.Report.{Reported, Structured}
use git_agent.Security.Report.Counts.{times, sum_of}
use git_agent.Security.Report.Render.{render_report_markdown}
use git_agent.Security.HubTools.{Turn, ToolsState}
use git_agent.Security.HubTools.Calls.{IsListed}

-- One list begins with the other.
abbrev pub Begins : List Reported → List Reported → Type 0
Begins xs ys = (later : List Reported) × (ys ≡ xs ++ later)

-- The numbers of the report are those of its findings, and add up.
abbrev pub AddsUp : Structured → Type 0
AddsUp x =
    ((s : Text) → or_else (get s x.findings_by_severity) 0 ≡ times s x.findings)
    × (sum_of (λ s. or_else (get s x.findings_by_severity) 0) severities ≡ length x.findings)

-- The row holds a report of the first of these findings, as text and with its structure if the hub
-- has the column.
abbrev pub IsReportOf : Bool → List Reported → ReportRow → Type 0
IsReportOf has recorded row =
    (x : Structured) × (row.summary ≡ render_report_markdown x)
    × (row.structured ≡ (if has then some x else none))
    × Begins x.findings recorded
    × AddsUp x

module _ (t : Turn) (old : List ReportRow) (has : Bool) where
  abbrev IsTrue : ToolsState → Type 0
  IsTrue s =
      (s.tables.has_structured ≡ has)
      × All IsListed s.recorded
      × ((new : List ReportRow) × (s.tables.reports ≡ old ++ new)
          × All (IsReportOf has s.recorded) new)
