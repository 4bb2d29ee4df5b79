-- ===== src/Security/Report.antt =====
-- core/tools/security/report.py: the structured report of a turn.
pub mod Render
pub mod Counts
pub mod Cells
use git_agent.Base.{
  Text, codes, Bool, true, false, Option, none, some, List, [], ◌∷◌, ◌++◌, ◌&&◌, not, is_nil,
  is_some, map, filter_by, length, take, join, strip, rstrip, show, ltb, ℕ, zero, ◌+◌, ℤ, pos, Dict,
  get, put, or_else, if◌then◌else◌, nat_eq, int_eq, list_eq, option_eq, ◌==◌,
}
use git_agent.Security.Finding.{Finding, severities}
use git_agent.Security.Blame.{Blame, given_info}

-- A finding after `finding.update(blame)`.
pub record Reported : Type 0 where
  pub finding : Finding
  pub blame : Blame

pub record ReportRange : Type 0 where
  pub before : Option Text
  pub after : Option Text
  pub base : Option Text
  pub head : Option Text

pub record ReportScope : Type 0 where
  pub event_type : Text
  pub commit : Option Text
  pub range : Option ReportRange
  pub files_touched : List Text
  pub lines_changed : Option ℤ

unfoldable pub no_scope : ReportScope
no_scope = record {
  event_type = [];
  commit = none;
  range = none;
  files_touched = [];
  lines_changed = none;
}

pub record WriteReportArgs : Type 0 where
  pub summary : Text
  pub scope : Option ReportScope
  pub method : List Text
  pub top_risks : List Text
  pub recommendations : List Text
  pub limitations : List Text

pub record Structured : Type 0 where
  pub summary : Text
  pub scope : ReportScope
  pub method : List Text
  pub findings_by_severity : Dict Text ℕ
  pub top_risks : List Text
  pub recommendations : List Text
  pub limitations : List Text
  pub findings : List Reported

-- `f.get("severity") or "info"`
abbrev pub severity_or_info : Text → Text
severity_or_info [] = codes "info"
severity_or_info (c ∷ s) = c ∷ s

unfoldable pub count_severity : Text → Dict Text ℕ → Dict Text ℕ
count_severity severity counts = put severity (or_else (get severity counts) 0 + 1) counts

unfoldable pub count_findings : List Reported → Dict Text ℕ → Dict Text ℕ
count_findings [] counts = counts
count_findings (f ∷ fs) counts =
    count_findings fs (count_severity (severity_or_info f.finding.severity) counts)

unfoldable pub no_counts : Dict Text ℕ
no_counts = map (λ s. (s, 0)) severities

unfoldable pub findings_by_severity : List Reported → Dict Text ℕ
findings_by_severity findings = count_findings findings no_counts

-- `a or b` of texts, of optional values and of lists
abbrev pub first_text : Text → Text → Text
first_text [] b = b
first_text (c ∷ s) b = c ∷ s

abbrev pub value_or {ℓ} : {A : Type ℓ} → Option A → Option A → Option A
value_or none b = b
value_or (some a) b = some a

abbrev pub list_or : List Text → List Text → List Text
list_or [] b = b
list_or (x ∷ xs) b = x ∷ xs

unfoldable pub merged_scope : ReportScope → Option ReportScope → ReportScope
merged_scope s none = s
merged_scope s (some d) = record {
  event_type = first_text s.event_type d.event_type;
  commit = value_or (given_info s.commit) d.commit;
  range = value_or s.range d.range;
  files_touched = list_or s.files_touched d.files_touched;
  lines_changed = value_or s.lines_changed d.lines_changed;
}

unfoldable pub build_structured_report :
    WriteReportArgs → List Reported → Option ReportScope → Structured
build_structured_report args findings default_scope = record {
  summary = strip args.summary;
  scope = merged_scope (or_else args.scope no_scope) default_scope;
  method = args.method;
  findings_by_severity = findings_by_severity findings;
  top_risks = args.top_risks;
  recommendations = args.recommendations;
  limitations = args.limitations;
  findings = findings;
}
