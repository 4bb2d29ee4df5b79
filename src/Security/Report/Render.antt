-- ===== src/Security/Report/Render.antt =====
-- render_report_markdown of core/tools/security/report.py: the text of a report.
use git_agent.Base.{
  Text, codes, Option, none, some, List, [], ◌∷◌, ◌++◌, ◌&&◌, not, is_nil, is_some, map, filter_by,
  length, take, join, strip, rstrip, show, ltb, ℕ, zero, ℤ, pos, Dict, get, or_else, if◌then◌else◌,
  nat_eq, int_eq, list_eq, option_eq, ◌==◌,
}
use git_agent.Subagents.Ledger.{show_int}
use git_agent.Security.Finding.{Finding, severities}
use git_agent.Security.Blame.{Blame, given_info}
use git_agent.Security.Report.{Reported, ReportRange, ReportScope, Structured, value_or}

abbrev pub truthy_line : Option ℤ → Option ℤ
truthy_line (some (pos zero)) = none
truthy_line o = o

unfoldable pub line_text : Option ℤ → Option ℤ → Text
line_text none end = []
line_text (some s) none = show_int s
line_text (some s) (some e) = if e == s then show_int s else show_int s ++ codes "-" ++ show_int e

unfoldable pub with_lines : Option Text → Text → Text
with_lines none lines = codes "—"
with_lines (some file) lines = if is_nil lines then file else file ++ codes ":" ++ lines

unfoldable pub location : Finding → Text
location f =
    with_lines (given_info f.file) (line_text (truthy_line f.line_start) (truthy_line f.line_end))

unfoldable pub introduced_tag : Option Text → Text
introduced_tag introduced =
    if introduced == some (codes "this_event")
    then codes " (this event)"
    else (if introduced == some (codes "earlier") then codes " (earlier)" else [])

unfoldable pub sha_text : Option Text → Text
sha_text none = []
sha_text (some commit) = codes " `" ++ take 7 commit ++ codes "`"

unfoldable pub blame_cell : Blame → Text
blame_cell b =
    let author = given_info b.author in
    let commit = given_info b.commit in
    if not (is_some author) && not (is_some commit)
    then codes "—"
    else strip (
        or_else author (codes "?")
        ++ codes " @ "
        ++ take 10 (or_else b.date [])
        ++ sha_text commit
        ++ introduced_tag b.introduced_by)

-- `s.replace("|", "\\|").replace("\n", " ")`
unfoldable pub md_char : ℕ → Text
md_char c = if c == 124 then 92 ∷ 124 ∷ [] else (if c == 10 then 32 ∷ [] else c ∷ [])

unfoldable pub md_chars : Text → Text
md_chars [] = []
md_chars (c ∷ s) = md_char c ++ md_chars s

unfoldable pub md : Text → Text
md text = strip (md_chars text)

unfoldable pub bullets : Text → List Text → List Text
bullets title [] = []
bullets title (i ∷ items) =
    (codes "## " ++ title) ∷ (map (λ t. codes "- " ++ md t) (i ∷ items) ++ [] ∷ [])

-- `a and b` of two optional texts, both of them not empty.
unfoldable pub both_given : Option Text → Option Text → Text → Option Text
both_given (some (c ∷ a)) (some (d ∷ b)) dots = some ((c ∷ a) ++ dots ++ (d ∷ b))
both_given _ _ dots = none

unfoldable pub range_text : Option ReportRange → Text
range_text none = []
range_text (some r) =
    or_else
      (value_or (both_given r.before r.after (codes "..")) (both_given r.base r.head (codes "...")))
      []

unfoldable pub commit_text : Option Text → Text
commit_text none = []
commit_text (some commit) = codes "@ " ++ take 7 commit

unfoldable pub report_head : ReportScope → Text
report_head scope = join (codes " ") (
    filter_by (λ x. not (is_nil x))
      (codes "# Security report"
        ∷ scope.event_type
        ∷ commit_text (given_info scope.commit)
        ∷ range_text scope.range
        ∷ []))

unfoldable pub files_line : List Text → List Text
files_line [] = []
files_line (f ∷ fs) =
    let files = f ∷ fs in
    (codes "- files touched: "
      ++ show (length files)
      ++ codes " ("
      ++ join (codes ", ") (take 20 files)
      ++ (if ltb 20 (length files) then codes "…" else [])
      ++ codes ")")
    ∷ []

unfoldable pub changed_line : Option ℤ → List Text
changed_line none = []
changed_line (some n) = (codes "- lines changed: " ++ show_int n) ∷ []

unfoldable pub scope_part : List Text → List Text
scope_part [] = []
scope_part (l ∷ lines) = codes "## Scope" ∷ (l ∷ lines) ++ [] ∷ []

unfoldable pub counts_line : Dict Text ℕ → ℕ → Text
counts_line counts total =
    join (codes " · ") (map (λ s. s ++ codes ": " ++ show (or_else (get s counts) 0)) severities)
    ++ codes " · total: "
    ++ show total

-- The cells of a finding.
unfoldable pub cells : Reported → List Text
cells r =
    md r.finding.severity
    ∷ md r.finding.title
    ∷ md (location r.finding)
    ∷ md (blame_cell r.blame)
    ∷ md (or_else (given_info r.finding.cwe) (codes "—"))
    ∷ md (or_else (given_info r.finding.confidence) (codes "—"))
    ∷ []

unfoldable pub table_row : Reported → Text
table_row r = codes "| " ++ join (codes " | ") (cells r) ++ codes " |"

unfoldable pub table : List Reported → List Text
table [] = []
table (r ∷ rs) =
    codes "| severity | title | file:lines | blame author @ date | cwe | confidence |"
    ∷ codes "|---|---|---|---|---|---|"
    ∷ (map table_row (r ∷ rs) ++ [] ∷ [])

unfoldable pub report_lines : Structured → List Text
report_lines s =
    (report_head s.scope ∷ [] ∷ codes "## Summary" ∷ s.summary ∷ [] ∷ [])
    ++ scope_part (files_line s.scope.files_touched ++ changed_line s.scope.lines_changed)
    ++ bullets (codes "Method") s.method
    ++ (codes "## Findings" ∷ counts_line s.findings_by_severity (length s.findings) ∷ [] ∷ [])
    ++ table s.findings
    ++ bullets (codes "Top risks") s.top_risks
    ++ bullets (codes "Recommendations") s.recommendations
    ++ bullets (codes "Limitations") s.limitations

unfoldable pub render_report_markdown : Structured → Text
render_report_markdown s = rstrip (join (10 ∷ []) (report_lines s)) ++ 10 ∷ []
