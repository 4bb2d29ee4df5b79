-- ===== src/Security/HubTools.antt =====
-- core/tools/security/hub.py and report_finding.py: the tools that report a finding and write the
-- report. The calls of the agents of a turn share the findings and the caches. A call of
-- report_finding is in two halves, since other calls may come between its entry in the list of the
-- turn and its row in the hub.

pub mod Calls
mod Tests
use git_agent.Base.{
  Text, codes, Bool, true, false, Option, none, some, List, [], ◌∷◌, ◌++◌, map, take, length,
  contains, is_nil, strip, show, ℕ, zero, ℤ, pos, or_else, if◌then◌else◌, nat_eq, list_eq,
  option_eq, ◌==◌,
}
use git_agent.Value.{Value, Values, Fields, int, str, arr, nil, cons, field, end, null}
use git_agent.Subagents.Ledger.{show_int}
use git_agent.Runner.Prompt.{pr_actions}
use git_agent.Security.Finding.{Host, Finding, validate_finding, finding_from_args, categories}
use git_agent.Security.Blame.{Blame, empty_blame, given_info}
use git_agent.Security.Blame.Resolver.{Resolver, Caches, no_caches, resolve}
use git_agent.Security.Report.{
  Reported, ReportRange, ReportScope, no_scope, WriteReportArgs, Structured,
  build_structured_report,
}
use git_agent.Security.Report.Render.{truthy_line, render_report_markdown}
use git_agent.Hub.Findings.{ResultTables, add_finding, add_report}

-- The arguments of report_finding, after their check against the schema.
pub record FindingArgs : Type 0 where
  pub title : Text
  pub severity : Text
  pub description : Text
  pub file : Text
  pub start_line : ℤ
  pub end_line : ℤ
  pub cwe : Text
  pub cve : Text
  pub impact : Text
  pub evidence : Text
  pub remediation : Text
  pub confidence : Text
  pub category : Text
  pub references : Option (List Text)

unfoldable pub texts_value : List Text → Values
texts_value [] = nil
texts_value (t ∷ ts) = cons (str t) (texts_value ts)

unfoldable pub references_value : Option (List Text) → Value
references_value none = null
references_value (some ts) = arr (texts_value ts)

-- `kwargs`
unfoldable pub kwargs : FindingArgs → Fields
kwargs a = field (codes "title") (str a.title) (
    field (codes "severity") (str a.severity) (
      field (codes "description") (str a.description) (
        field (codes "file") (str a.file) (
          field (codes "start_line") (int a.start_line) (
            field (codes "end_line") (int a.end_line) (
              field (codes "cwe") (str a.cwe) (
                field (codes "cve") (str a.cve) (
                  field (codes "impact") (str a.impact) (
                    field (codes "evidence") (str a.evidence) (
                      field (codes "remediation") (str a.remediation) (
                        field (codes "confidence") (str a.confidence) (
                          field (codes "category") (str a.category) (
                            field (codes "references") (references_value a.references)
                              end)))))))))))))

unfoldable pub line_suffix : ℤ → Text
line_suffix (pos zero) = []
line_suffix n = codes ":" ++ show_int n

unfoldable pub recorded_text : Host → FindingArgs → Text
recorded_text h a =
    codes "recorded "
    ++ strip (h.lower a.severity)
    ++ codes " finding: "
    ++ strip a.title
    ++ codes " ["
    ++ a.file
    ++ line_suffix a.start_line
    ++ codes "]"
    ++ (if contains (strip (h.lower a.category)) categories
        then []
        else codes " (category normalized to 'other')")

unfoldable pub report_finding : Host → FindingArgs → Text
report_finding h a = or_else (validate_finding h a.title a.severity a.file) (recorded_text h a)

-- What `build_hub_security_tools` is called with; the resolver is of the sandbox, if there is one.
pub record Turn : Type 0 where
  pub host : Host
  pub instance_id : ℕ
  pub event_id : Option ℕ
  pub sandbox : Option Resolver
  pub scope_range : Option (Text × Text)
  pub event_type : Text
  pub commit : Option Text

-- The list and the caches of the turn, and the tables of the hub.
pub record ToolsState : Type 0 where
  pub recorded : List Reported
  pub caches : Caches
  pub tables : ResultTables

unfoldable pub build_hub_security_tools : ResultTables → ToolsState
build_hub_security_tools tables = record { recorded = []; caches = no_caches; tables = tables }

unfoldable pub default_range : Turn → Option ReportRange
default_range t = option_range t.scope_range
  where
    option_range : Option (Text × Text) → Option ReportRange
    option_range none = none
    option_range (some (before, after)) =
        if contains t.event_type pr_actions
        then some (record { before = none; after = none; base = some before; head = some after })
        else some (record { before = some before; after = some after; base = none; head = none })

unfoldable pub default_scope : Turn → ReportScope
default_scope t = record no_scope {
  event_type = t.event_type;
  commit = t.commit;
  range = default_range t;
}

-- `none` is an exception of the resolver.
unfoldable pub resolve_given :
    Resolver → Option Text → Option ℤ → Option ℤ → Caches → Option (Blame × Caches)
resolve_given r (some file) (some start) last c = resolve r file start last c
resolve_given r _ _ last c = some (empty_blame, c)

unfoldable pub resolve_finding : Turn → Finding → Caches → Option (Blame × Caches)
resolve_finding t f c = with_sandbox t.sandbox
  where
    with_sandbox : Option Resolver → Option (Blame × Caches)
    with_sandbox none = some (empty_blame, c)
    with_sandbox (some r) =
        resolve_given (record r { range = t.scope_range }) (given_info f.file)
          (truthy_line f.line_start) f.line_end c

unfoldable pub introduced_text : Option Text → Text
introduced_text by =
    if by == some (codes "this_event")
    then codes "introduced by this event"
    else (if by == some (codes "earlier") then codes "pre-existing" else codes "origin unknown")

unfoldable pub blame_suffix : Blame → Text
blame_suffix b = suffix (given_info b.commit)
  where
    suffix : Option Text → Text
    suffix none = []
    suffix (some commit) =
        codes "; blame: "
        ++ or_else (given_info b.author) (codes "?")
        ++ codes " @ "
        ++ take 10 (or_else b.date [])
        ++ codes " "
        ++ take 7 commit
        ++ codes " — "
        ++ introduced_text b.introduced_by

-- How a call goes on: it answers, it raises, or it has a finding to store and then an answer.
pub data CallProgress : Type 0 where
  answered : Text → CallProgress
  raised : CallProgress
  storing : Reported → Text → CallProgress

unfoldable pub record_blamed :
    Text → Finding → Option (Blame × Caches) → ToolsState → CallProgress × ToolsState
record_blamed result f none s = (raised, s)
record_blamed result f (some (blame, c)) s =
    let r : Reported = record { finding = f; blame = blame } in
    (
      storing r (result ++ blame_suffix blame),
      record s { recorded = s.recorded ++ r ∷ []; caches = c },
    )

unfoldable pub record_read : Turn → Text → Option Finding → ToolsState → CallProgress × ToolsState
record_read t result none s = (raised, s)
record_read t result (some f) s = record_blamed result f (resolve_finding t f s.caches) s

unfoldable pub after_validation :
    Turn → FindingArgs → Option Text → ToolsState → CallProgress × ToolsState
after_validation t a (some error) s = (answered (report_finding t.host a), s)
after_validation t a none s =
    record_read t (report_finding t.host a) (finding_from_args t.host (kwargs a)) s

-- `_report_finding` up to the call of the store
unfoldable pub begin_report_finding : Turn → FindingArgs → ToolsState → CallProgress × ToolsState
begin_report_finding t a s =
    after_validation t a (validate_finding t.host a.title a.severity a.file) s

-- `_report_finding` from the call of the store; `up` says whether the hub can be reached.
unfoldable pub end_report_finding :
    Turn → Bool → Reported → Text → ToolsState → CallProgress × ToolsState
end_report_finding t up r answer s =
    if up
    then (answered answer, record s { tables = add_finding t.instance_id r t.event_id s.tables })
    else (raised, s)

unfoldable pub structured_of : Turn → WriteReportArgs → ToolsState → Structured
structured_of t args s = build_structured_report args s.recorded (some (default_scope t))

unfoldable pub write_report : Turn → Bool → WriteReportArgs → ToolsState → CallProgress × ToolsState
write_report t up args s =
    let structured = structured_of t args s in
    let (tables, id) =
      add_report t.instance_id t.event_id (render_report_markdown structured) structured s.tables in
    if is_nil (strip args.summary)
    then (answered (codes "write_report: summary is required"), s)
    else (if up
        then (
          answered (
              codes "report "
              ++ show id
              ++ codes " saved ("
              ++ show (length s.recorded)
              ++ codes " findings attached)"),
          record s { tables = tables },
        )
        else (raised, s))
