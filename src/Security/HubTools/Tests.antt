-- ===== src/Security/HubTools/Tests.antt =====
-- A turn with a finding that is stored, one that is refused, one whose store fails, and a report.
use git_agent.Base.{
  Text, codes, Bool, true, false, Option, none, some, List, [], ◌∷◌, ◌≡◌, refl, strip, ℕ, ◌+◌, ℤ,
  pos, map, length, All, list_eq, nat_eq, list_beq, ◌==◌,
}
use git_agent.Value.{Value, str, int, field_get, truthy}
use git_agent.Hub.Findings
use git_agent.Hub.Findings.{FindingRow, ResultTables, add_finding, add_report}
use git_agent.Security.Finding
use git_agent.Security.Finding.{Host, Finding}
use git_agent.Security.Blame.{empty_blame}
use git_agent.Security.Report.{Reported, WriteReportArgs}
use git_agent.Security.Report.Render.{cells}
use git_agent.Security.Report.Cells.{is_cell, cells-All-is_cell}
use git_agent.Security.HubTools
use git_agent.Security.HubTools.{
  FindingArgs, Turn, begin_report_finding, end_report_finding, write_report,
  build_hub_security_tools,
}
use git_agent.Security.HubTools.Calls
use git_agent.Security.HubTools.Calls.{Call, begins, goes_on, writes, InTurn, new_turn, run, step}
use git_agent.Security.HubTools.Calls.Rows.{number, passes, run-rows}

abbrev text_only : Value → Text
text_only (str s) = s
text_only _ = []

abbrev int_only : Value → Option ℤ
int_only (int n) = some n
int_only _ = none

abbrev host : Host
host = record { lower = λ s. s; repr = λ s. s; str_of = text_only; int_of = int_only }

abbrev turn : Turn
turn = record {
  host = host;
  instance_id = 7;
  event_id = some 3;
  sandbox = none;
  scope_range = some (codes "a1", codes "b2");
  event_type = codes "pull_request";
  commit = some (codes "b2");
}

abbrev finding_args : Text → Text → FindingArgs
finding_args title severity = record {
  title = title;
  severity = severity;
  description = [];
  file = codes "a.py";
  start_line = pos 4;
  end_line = pos 0;
  cwe = [];
  cve = [];
  impact = [];
  evidence = [];
  remediation = [];
  confidence = [];
  category = codes "auth";
  references = none;
}

abbrev report_args : WriteReportArgs
report_args = record {
  summary = codes "two risks";
  scope = none;
  method = [];
  top_risks = codes "a" ∷ [];
  recommendations = [];
  limitations = [];
}

abbrev empty_tables : ResultTables
empty_tables = record {
  findings = [];
  reports = [];
  next_report_id = 1;
  has_v2 = true;
  has_structured = true;
  warned_schema = [];
}

abbrev calls : List Call
calls =
    begins (finding_args (codes "a") (codes "high"))
    ∷ begins (finding_args (codes "b") (codes "worst"))
    ∷ begins (finding_args (codes "c") (codes "low"))
    ∷ goes_on 1 false
    ∷ writes true report_args
    ∷ goes_on 0 true
    ∷ []

abbrev is_high : FindingRow → Bool
is_high row = row.severity == codes "high"

calls_result :
    let u = run turn calls (new_turn empty_tables) in
    (map (λ row. row.severity) u.tools.tables.findings ≡ codes "high" ∷ [])
    × (map (λ r. r.finding.severity) u.tools.recorded ≡ codes "high" ∷ codes "low" ∷ [])
    × (length u.tools.tables.reports ≡ 1)
    × (length u.lost ≡ 1)
unfolding run step new_turn Calls.begun Calls.pick Calls.gone_on build_hub_security_tools
    begin_report_finding HubTools.after_validation HubTools.record_read HubTools.record_blamed
    end_report_finding write_report HubTools.resolve_finding HubTools.kwargs HubTools.texts_value
    HubTools.references_value add_finding Findings.finding_row add_report Finding.validate_finding
    Finding.finding_from_args Finding.text_arg Finding.normalize_severity Finding.normalize_category
    Finding.normalize_confidence Finding.confidence_of Finding.text_or_empty Finding.or_none
    Finding.line_arg Finding.first_truthy Finding.nonzero Finding.refs_of Finding.values_list
    Finding.references_of Finding.severities Finding.categories field_get truthy codes list_beq
    strip git_agent.Base.lstrip git_agent.Base.rstrip git_agent.Base.is_space
calls_result = (refl, refl, refl, refl)

run-rows_example :
    let u = run turn calls (new_turn empty_tables) in
    number is_high u.tools.tables.findings
      + number (λ e. passes turn true is_high e.0) u.pending
      + number (passes turn true is_high) u.lost
    ≡ number is_high [] + number (passes turn true is_high) u.tools.recorded
run-rows_example = run-rows turn calls empty_tables is_high

abbrev piped : Reported
piped = record {
  finding = record {
    title = codes "a|b";
    severity = codes "low";
    description = [];
    impact = none;
    confidence = none;
    category = codes "other";
    file = some (codes "a.py");
    line_start = none;
    line_end = none;
    cwe = none;
    cve = none;
    evidence = none;
    remediation = none;
    references = [];
  };
  blame = empty_blame;
}

cells-All-is_cell_example : All (λ c. is_cell false c ≡ true) (cells piped)
cells-All-is_cell_example = cells-All-is_cell piped
