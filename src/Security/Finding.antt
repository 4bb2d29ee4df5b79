-- ===== src/Security/Finding.antt =====
-- core/tools/security/findings.py: a finding, its validation, and its reading out of a tool call.
use git_agent.Base.{
  Text, codes, Bool, true, false, Option, none, some, List, [], ◌∷◌, ◌++◌, ◌>>=◌, ◌||◌, ◌&&◌, not,
  is_nil, contains, any_by, filter_by, map, strip, reverse, if◌then◌else◌, or_else, ℤ, pos, ℕ, zero,
  suc, join, nat_eq, list_eq, ◌==◌, HasEq,
}
use git_agent.Value.{
  Value, Values, Fields, int, str, arr, obj, nil, cons, field, end, field_get, truthy,
}

unfoldable pub severities : List Text
severities = codes "critical" ∷ codes "high" ∷ codes "medium" ∷ codes "low" ∷ codes "info" ∷ []

unfoldable pub categories : List Text
categories =
    codes "injection"
    ∷ codes "auth"
    ∷ codes "crypto"
    ∷ codes "secrets"
    ∷ codes "deps"
    ∷ codes "config"
    ∷ codes "xss"
    ∷ codes "ssrf"
    ∷ codes "path"
    ∷ codes "logic"
    ∷ codes "other"
    ∷ []

unfoldable pub confidences : List Text
confidences = codes "high" ∷ codes "medium" ∷ codes "low" ∷ []

-- Python's `str.lower`, `repr` of a string, and `str` and `int` of a value.
pub record Host : Type 0 where
  pub lower : Text → Text
  pub repr : Text → Text
  pub str_of : Value → Text
  pub int_of : Value → Option ℤ

abbrev pub known_severity : Host → Text → Bool
known_severity h severity = contains (strip (h.lower severity)) severities

-- The error, or `None`.
unfoldable pub validate_finding : Host → Text → Text → Text → Option Text
validate_finding h title severity file =
    if not (known_severity h severity)
    then some (
        codes "report_finding: bad severity "
        ++ h.repr severity
        ++ codes "; use one of "
        ++ join (codes ", ") severities)
    else (if is_nil (strip title)
        then some (codes "report_finding: title is required")
        else (if is_nil (strip file)
            then some (
                codes
                  "report_finding: file is required (path inside the repository; for repo-wide issues name the closest manifest/config file)")
            else none))

-- The blame fields are none when a finding is read.
pub record Finding : Type 0 where
  pub title : Text
  pub severity : Text
  pub description : Text
  pub impact : Option Text
  pub confidence : Option Text
  pub category : Text
  pub file : Option Text
  pub line_start : Option ℤ
  pub line_end : Option ℤ
  pub cwe : Option Text
  pub cve : Option Text
  pub evidence : Option Text
  pub remediation : Option Text
  pub references : List Text

-- `s or None`
unfoldable pub or_none : Text → Option Text
or_none [] = none
or_none (c ∷ s) = some (c ∷ s)

-- `str(args.get(k, "")).strip()`
unfoldable pub text_arg : Host → Text → Fields → Text
text_arg h k args = strip (h.str_of (or_else (field_get k args) (str [])))

-- `str(value or "")`
unfoldable pub text_or_empty : Host → Option Value → Text
text_or_empty h none = []
text_or_empty h (some v) = if truthy v then h.str_of v else []

unfoldable pub normalize_category : Host → Option Value → Text
normalize_category h v =
    let cat = strip (h.lower (text_or_empty h v)) in
    if contains cat categories then cat else codes "other"

unfoldable pub normalize_severity : Host → Option Value → Text
normalize_severity h v =
    let sev = strip (h.lower (h.str_of (or_else v (str [])))) in
    if contains sev severities then sev else codes "info"

-- The characters `:;,.`
unfoldable pub is_mark : ℕ → Bool
is_mark c = c == 58 || c == 59 || c == 44 || c == 46

unfoldable pub drop_marks : Text → Text
drop_marks [] = []
drop_marks (c ∷ s) = let rest = drop_marks s in if is_mark c then rest else c ∷ s

-- `s.strip(":;,.")`
unfoldable pub strip_marks : Text → Text
strip_marks s = reverse (drop_marks (reverse (drop_marks s)))

-- `text.split()[0]` of a stripped text
unfoldable pub first_word : Text → Text
unfolding git_agent.Base.is_space
first_word [] = []
first_word (c ∷ s) = let rest = first_word s in if git_agent.Base.is_space c then [] else c ∷ rest

unfoldable pub confidence_of : Host → Text → Option Text
confidence_of h text =
    let head = strip_marks (h.lower (first_word text)) in
    if is_nil text then none else (if contains head confidences then some head else some text)

unfoldable pub normalize_confidence : Host → Option Value → Option Text
normalize_confidence h v = confidence_of h (strip (text_or_empty h v))

-- `a or b`
unfoldable pub first_truthy : Option Value → Value → Value
first_truthy none w = w
first_truthy (some v) w = if truthy v then v else w

unfoldable pub nonzero : ℤ → Option ℤ
nonzero (pos zero) = none
nonzero n = some n

-- `int(args.get(a) or args.get(b) or 0) or None`; `none` is an exception of `int`.
unfoldable pub line_arg : Host → Text → Text → Fields → Option (Option ℤ)
line_arg h a b args =
    h.int_of (first_truthy (field_get a args) (first_truthy (field_get b args) (int (pos 0))))
    >>= λ n. some (nonzero n)

unfoldable pub values_list : Values → List Value
values_list nil = []
values_list (cons v vs) = v ∷ values_list vs

unfoldable pub keys_list : Fields → List Value
keys_list end = []
keys_list (field k v d) = str k ∷ keys_list d

-- What iterating over the references gives; `none` is the `TypeError`.
unfoldable pub refs_of : Value → Option (List Value)
refs_of (str s) = some (str s ∷ [])
refs_of (arr vs) = some (values_list vs)
refs_of (obj d) = some (keys_list d)
refs_of _ = none

unfoldable pub references_of : Host → List Value → List Text
references_of h vs = filter_by (λ r. not (is_nil r)) (map (λ v. strip (h.str_of v)) vs)

-- `none` is an exception.
unfoldable pub finding_from_args : Host → Fields → Option Finding
finding_from_args h args = do
  refs ← refs_of (first_truthy (field_get (codes "references") args) (arr nil))
  line_start ← line_arg h (codes "start_line") (codes "lineStart") args
  line_end ← line_arg h (codes "end_line") (codes "lineEnd") args
  some (record {
    title = text_arg h (codes "title") args;
    severity = normalize_severity h (field_get (codes "severity") args);
    description = text_arg h (codes "description") args;
    impact = or_none (text_arg h (codes "impact") args);
    confidence = normalize_confidence h (field_get (codes "confidence") args);
    category = normalize_category h (field_get (codes "category") args);
    file = or_none (text_arg h (codes "file") args);
    line_start = line_start;
    line_end = line_end;
    cwe = or_none (text_arg h (codes "cwe") args);
    cve = or_none (text_arg h (codes "cve") args);
    evidence = or_none (text_arg h (codes "evidence") args);
    remediation = or_none (text_arg h (codes "remediation") args);
    references = references_of h refs;
  })
