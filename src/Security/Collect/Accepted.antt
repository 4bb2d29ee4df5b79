-- ===== src/Security/Collect/Accepted.antt =====
-- What `report_finding` accepts is what `collect_findings` keeps.
use git_agent.Base.{
  Text, codes, true, false, [], ◌∷◌, none, some, ◌≡◌, refl, ap, ◌∙◌, is_nil, strip, contains,
  if◌then◌else◌, or_else, nat_eq, list_eq, if_true, arith, true≢false,
}
use git_agent.Value.{Fields, str, field_get}
use git_agent.Security.Finding.{
  Finding, Host, severities, known_severity, validate_finding, normalize_severity, text_arg,
  or_none, finding_from_args,
}

-- The three texts that a validation looks at, as they are read from the arguments.
read_fields :
    (h : Host) (args : Fields) (f : Finding)
    → finding_from_args h args ≡ some f
    → (f.title ≡ text_arg h (codes "title") args)
      × (f.severity ≡ normalize_severity h (field_get (codes "severity") args))
      × (f.file ≡ or_none (text_arg h (codes "file") args))
unfolding finding_from_args
read_fields h args f e = ground arith

validated :
    (h : Host) (title severity file : Text)
    → validate_finding h title severity file ≡ none
    → (known_severity h severity ≡ true)
      × (is_nil (strip title) ≡ false)
      × (is_nil (strip file) ≡ false)
unfolding validate_finding
validated h title severity file e = ground arith

or_none_given : (s : Text) → is_nil s ≡ false → or_none s ≡ some s
unfolding or_none
or_none_given [] h = absurd (true≢false h)
or_none_given (c ∷ s) h = refl

module _ (h : Host) (str_str : (s : Text) → h.str_of (str s) ≡ s) where
  text_arg-str :
      (k : Text) (args : Fields) (s : Text)
      → field_get k args ≡ some (str s)
      → text_arg h k args ≡ strip s
  unfolding text_arg
  text_arg-str k args s e = ap (λ o. strip (h.str_of (or_else o (str [])))) e ∙ ap strip (str_str s)

  normalize_severity-str :
      (s : Text)
      → known_severity h s ≡ true
      → normalize_severity h (some (str s)) ≡ strip (h.lower s)
  unfolding normalize_severity
  normalize_severity-str s k =
      ap (λ t. if contains (strip (h.lower t)) severities then strip (h.lower t) else codes "info")
        (str_str s)
      ∙ if_true _ _ _ k

  -- If `str` of a string is the string, and the title, the severity and the file of a call pass the
  -- validation, then the finding that is read from the call has that severity, and the title and the
  -- file without the space around them, neither of them empty.
  pub validate_finding-finding_from_args :
      (args : Fields) (title severity file : Text) (f : Finding)
      → field_get (codes "title") args ≡ some (str title)
      → field_get (codes "severity") args ≡ some (str severity)
      → field_get (codes "file") args ≡ some (str file)
      → validate_finding h title severity file ≡ none
      → finding_from_args h args ≡ some f
      → (f.title ≡ strip title)
        × (is_nil f.title ≡ false)
        × (f.severity ≡ strip (h.lower severity))
        × (f.file ≡ some (strip file))
  validate_finding-finding_from_args args title severity file f et es ef ok read =
      let (known, titled, filed) = validated h title severity file ok in
      let (rt, rs, rf) = read_fields h args f read in
      let same_title : f.title ≡ strip title = rt ∙ text_arg-str (codes "title") args title et in
      (
        same_title,
        ap is_nil same_title ∙ titled,
        rs ∙ ap (normalize_severity h) es ∙ normalize_severity-str severity known,
        rf
            ∙ ap or_none (text_arg-str (codes "file") args file ef)
            ∙ or_none_given (strip file) filed,
      )
