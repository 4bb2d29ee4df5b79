-- ===== src/Security/Tests.antt =====
-- The findings of a concrete conversation.
use git_agent.Base.{
  Text, codes, Bool, true, false, Option, none, some, List, [], ◌∷◌, ◌≡◌, refl, is_nil, strip, map,
  All, Distinct, Ordered, ℤ, pos, list_beq, option_beq, pair_beq, put, sorted, insert_sorted,
  nat_eq, list_eq, option_eq, pair_eq,
}
use git_agent.Value.{Value, Fields, str, int, end, field, field_get, truthy}
use git_agent.Message.{Message, ToolCall, ai}
use git_agent.Security.Finding
use git_agent.Security.Collect
use git_agent.Security.Finding.{Host, finding_from_args, validate_finding}
use git_agent.Security.Collect.{Key, key, at_least_as_severe, collect_findings}
use git_agent.Security.Collect.Result.{IsNormal, collect_findings-Ordered}

abbrev text_only : Value → Text
text_only (str s) = s
text_only _ = []

abbrev int_only : Value → Option ℤ
int_only (int n) = some n
int_only _ = none

abbrev host : Host
host = record { lower = λ s. s; repr = λ s. s; str_of = text_only; int_of = int_only }

abbrev args : Text → Text → Fields
args title severity =
    field (codes "title") (str title)
      (field (codes "severity") (str severity) (field (codes "file") (str (codes "a.py")) end))

abbrev report : Text → Text → ToolCall
report title severity = record {
  id = none;
  name = codes "report_finding";
  args = args title severity;
}

abbrev found : List Message
found =
    ai (record {
      id = none;
      content = str [];
      tool_calls = report (codes "a") (codes "low") ∷ report (codes "b") (codes "high") ∷ [];
      invalid_tool_calls = [];
      additional_kwargs = end;
      response_metadata = end;
      usage_metadata = none;
    })
    ∷ []

abbrev finding : Text → Text → Finding.Finding
finding title severity = record {
  title = title;
  severity = severity;
  description = [];
  impact = none;
  confidence = none;
  category = codes "other";
  file = some (codes "a.py");
  line_start = none;
  line_end = none;
  cwe = none;
  cve = none;
  evidence = none;
  remediation = none;
  references = [];
}

finding_a :
    finding_from_args host (args (codes "a") (codes "low"))
    ≡ some (finding (codes "a") (codes "low"))
unfolding finding_from_args Finding.text_arg Finding.normalize_severity Finding.normalize_category
    Finding.normalize_confidence Finding.confidence_of Finding.text_or_empty Finding.or_none
    Finding.line_arg Finding.first_truthy Finding.nonzero Finding.refs_of Finding.values_list
    Finding.references_of Finding.severities Finding.categories field_get truthy codes list_beq
    strip git_agent.Base.lstrip git_agent.Base.rstrip git_agent.Base.is_space
finding_a = refl

found_result :
    collect_findings host found
    ≡ some (finding (codes "b") (codes "high") ∷ finding (codes "a") (codes "low") ∷ [])
unfolding collect_findings Collect.add_messages Collect.add_message Collect.add_calls
    Collect.add_call Collect.keep Collect.rank Collect.rank_from Collect.finding_tool put sorted
    insert_sorted pair_beq option_beq finding_from_args Finding.text_arg Finding.normalize_severity
    Finding.normalize_category Finding.normalize_confidence Finding.confidence_of
    Finding.text_or_empty Finding.or_none Finding.line_arg Finding.first_truthy Finding.nonzero
    Finding.refs_of Finding.values_list Finding.references_of Finding.severities Finding.categories
    field_get truthy codes list_beq strip git_agent.Base.lstrip git_agent.Base.rstrip
    git_agent.Base.is_space
found_result = refl

collect_findings-Ordered_example :
    let fs = finding (codes "b") (codes "high") ∷ finding (codes "a") (codes "low") ∷ [] in
    Ordered at_least_as_severe fs
    × All (λ f. (is_nil f.title ≡ false) × IsNormal f) fs
    × Distinct (map key fs)
collect_findings-Ordered_example =
    collect_findings-Ordered host found
      (finding (codes "b") (codes "high") ∷ finding (codes "a") (codes "low") ∷ []) found_result
