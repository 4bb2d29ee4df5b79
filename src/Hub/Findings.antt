-- ===== src/Hub/Findings.antt =====
-- add_finding and add_report of infra/db/hub_store.py: the rows of the findings and of the reports,
-- with the columns of the first version where the migration of the hub is missing.
pub mod Unchanged
use git_agent.Base.{
  Text, codes, Bool, true, false, Option, none, some, List, [], ◌∷◌, ◌++◌, not, is_nil, filter_by,
  contains, join, ℕ, ◌+◌, ℤ, or_else, if◌then◌else◌, nat_eq, list_eq,
}
use git_agent.Security.Blame.{Blame, given_info}
use git_agent.Security.Finding.{Finding}
use git_agent.Security.Report.{Reported, Structured, severity_or_info}

pub record FindingV2 : Type 0 where
  pub title : Text
  pub description : Text
  pub impact : Option Text
  pub confidence : Option Text
  pub category : Text
  pub references : List Text
  pub blame : Blame

pub record FindingRow : Type 0 where
  pub instance_id : ℕ
  pub event_id : Option ℕ
  pub severity : Text
  pub cwe : Option Text
  pub cve : Option Text
  pub file : Option Text
  pub line_start : Option ℤ
  pub line_end : Option ℤ
  pub evidence : Text
  pub remediation : Option Text
  pub v2 : Option FindingV2

pub record ReportRow : Type 0 where
  pub id : ℕ
  pub instance_id : ℕ
  pub event_id : Option ℕ
  pub summary : Text
  pub structured : Option Structured

-- The tables, which of them have the columns of the second version, and the warnings of the process.
pub record ResultTables : Type 0 where
  pub findings : List FindingRow
  pub reports : List ReportRow
  pub next_report_id : ℕ
  pub has_v2 : Bool
  pub has_structured : Bool
  pub warned_schema : List Text

unfoldable pub warn_schema_v1 : Text → ResultTables → ResultTables
warn_schema_v1 what t =
    if contains what t.warned_schema then t else record t { warned_schema = what ∷ t.warned_schema }

unfoldable pub evidence_parts : Finding → List Text
evidence_parts f =
    f.title
    ∷ f.description
    ∷ or_else f.impact []
    ∷ or_else f.evidence []
    ∷ confidence_part (given_info f.confidence)
    ∷ []
  where
    confidence_part : Option Text → Text
    confidence_part none = []
    confidence_part (some c) = codes "confidence: " ++ c

unfoldable pub evidence_text : Finding → Text
evidence_text f = join (10 ∷ 10 ∷ []) (filter_by (λ p. not (is_nil p)) (evidence_parts f))

unfoldable pub v2_columns : Reported → FindingV2
v2_columns r = record {
  title = r.finding.title;
  description = r.finding.description;
  impact = r.finding.impact;
  confidence = r.finding.confidence;
  category = r.finding.category;
  references = r.finding.references;
  blame = r.blame;
}

unfoldable pub finding_row : Bool → ℕ → Option ℕ → Reported → FindingRow
finding_row has_v2 instance_id event_id r = record {
  instance_id = instance_id;
  event_id = event_id;
  severity = severity_or_info r.finding.severity;
  cwe = r.finding.cwe;
  cve = r.finding.cve;
  file = r.finding.file;
  line_start = r.finding.line_start;
  line_end = r.finding.line_end;
  evidence = evidence_text r.finding;
  remediation = r.finding.remediation;
  v2 = if has_v2 then some (v2_columns r) else none;
}

unfoldable pub add_finding : ℕ → Reported → Option ℕ → ResultTables → ResultTables
add_finding instance_id r event_id t =
    let warned = if t.has_v2 then t else warn_schema_v1 (codes "hub.findings v2 columns") t in
    record warned { findings = t.findings ++ finding_row t.has_v2 instance_id event_id r ∷ [] }

unfoldable pub report_row : ResultTables → ℕ → Option ℕ → Text → Structured → ReportRow
report_row t instance_id event_id summary structured = record {
  id = t.next_report_id;
  instance_id = instance_id;
  event_id = event_id;
  summary = summary;
  structured = if t.has_structured then some structured else none;
}

-- The tables, and the id of the new row.
unfoldable pub add_report : ℕ → Option ℕ → Text → Structured → ResultTables → ResultTables × ℕ
add_report instance_id event_id summary structured t =
    let warned =
      if t.has_structured then t else warn_schema_v1 (codes "hub.reports.structured") t in
    (
      record warned {
        reports = t.reports ++ report_row t instance_id event_id summary structured ∷ [];
        next_report_id = t.next_report_id + 1;
      },
      t.next_report_id,
    )
