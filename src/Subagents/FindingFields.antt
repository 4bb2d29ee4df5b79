-- ===== src/Subagents/FindingFields.antt =====
-- core/tools/security/findings.py: a finding as the dictionary that a result carries.
use git_agent.Base.{Text, codes, Option, none, some, List, [], ◌∷◌, ℤ, nat_eq, list_eq}
use git_agent.Value.{Value, Values, Fields, null, int, str, arr, nil, cons, field, end}
use git_agent.Security.Finding.{Finding}

-- `None` is null.
abbrev text_or_none : Option Text → Value
text_or_none none = null
text_or_none (some s) = str s

abbrev int_or_none : Option ℤ → Value
int_or_none none = null
int_or_none (some n) = int n

unfoldable pub text_values : List Text → Values
text_values [] = nil
text_values (t ∷ ts) = cons (str t) (text_values ts)

-- `dict.fromkeys(BLAME_FIELDS)`
unfoldable pub no_blame : Fields
no_blame = field (codes "blameAuthor") null (
    field (codes "blameEmail") null (
      field (codes "blameCommit") null (
        field (codes "blameDate") null
          (field (codes "blameCommitMessage") null (field (codes "introducedBy") null end)))))

-- The dictionary that `finding_from_args` returns.
unfoldable pub finding_fields : Finding → Fields
finding_fields f = field (codes "title") (str f.title) (
    field (codes "severity") (str f.severity) (
      field (codes "description") (str f.description) (
        field (codes "impact") (text_or_none f.impact) (
          field (codes "confidence") (text_or_none f.confidence) (
            field (codes "category") (str f.category) (
              field (codes "file") (text_or_none f.file) (
                field (codes "lineStart") (int_or_none f.line_start) (
                  field (codes "lineEnd") (int_or_none f.line_end) (
                    field (codes "cwe") (text_or_none f.cwe) (
                      field (codes "cve") (text_or_none f.cve) (
                        field (codes "evidence") (text_or_none f.evidence) (
                          field (codes "remediation") (text_or_none f.remediation) (
                            field (codes "references") (arr (text_values f.references))
                              no_blame)))))))))))))
