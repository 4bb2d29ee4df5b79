-- ===== src/Security/Report/Counts.antt =====
-- The numbers of findings of a report.
use git_agent.Base.{
  Text, codes, Bool, true, false, Option, some, List, [], ◌∷◌, ◌≡◌, refl, sym, ap, ◌∙◌, fun_ext,
  inl, inr, ℕ, ◌+◌, length, map, All, contains, Distinct, Dict, get, get-put, or_else,
  if◌then◌else◌, Bool-cases, nat_eq, list_eq, list_beq, ◌==◌, ==-iff_eq, ==_comm_false, ◌||◌, arith,
}
use git_agent.Security.Finding.{severities}
use git_agent.Security.Report.{
  Reported, severity_or_info, count_severity, count_findings, no_counts, findings_by_severity,
}

abbrev severity : Reported → Text
severity r = severity_or_info r.finding.severity

abbrev one_if : Bool → ℕ
one_if b = if b then 1 else 0

-- How many findings have this severity.
abbrev pub times : Text → List Reported → ℕ
times s [] = 0
times s (f ∷ fs) = one_if (severity f == s) + times s fs

abbrev counted : Text → Dict Text ℕ → ℕ
counted s counts = or_else (get s counts) 0

counted-count_severity :
    (t s : Text) (counts : Dict Text ℕ)
    → counted s (count_severity t counts) ≡ one_if (t == s) + counted s counts
unfolding count_severity
counted-count_severity t s counts =
    ap (λ o. or_else o 0) (get-put t s _ counts) ∙ either (t == s) refl
  where
    either :
        (b : Bool)
        → (t == s) ≡ b
        → or_else (if b then some (counted t counts + 1) else get s counts) 0
          ≡ one_if b + counted s counts
    either true e = let same = ap (λ u. counted u counts) ((==-iff_eq t s).0 e) in omega arith
    either false e = omega arith

counted-count_findings :
    (s : Text) (fs : List Reported) (counts : Dict Text ℕ)
    → counted s (count_findings fs counts) ≡ times s fs + counted s counts
unfolding count_findings
counted-count_findings s [] counts = omega arith
counted-count_findings s (f ∷ fs) counts = omega (
  arith,
  counted-count_findings s fs (count_severity (severity f) counts),
  counted-count_severity (severity f) s counts,
)

zero_or : (b : Bool) (o : Option ℕ) → or_else o 0 ≡ 0 → or_else (if b then some 0 else o) 0 ≡ 0
zero_or true o h = refl
zero_or false o h = h

counted-zeros : (s : Text) (ts : List Text) → counted s (map (λ t. (t, 0)) ts) ≡ 0
unfolding get
counted-zeros s [] = refl
counted-zeros s (t ∷ ts) = zero_or (t == s) _ (counted-zeros s ts)

abbrev pub sum_of : (Text → ℕ) → List Text → ℕ
sum_of f [] = 0
sum_of f (s ∷ ss) = f s + sum_of f ss

-- A text is once among those of a list that names it, and never among those of another.
sum_once :
    (x : Text) (ss : List Text)
    → Distinct ss
    → sum_of (λ s. one_if (x == s)) ss ≡ one_if (contains x ss)
sum_once x [] d = refl
sum_once x (s ∷ ss) (new, d) = elim (Bool-cases (x == s)) [
  | inl e ↦
      let same = (==-iff_eq x s).0 e in
      let absent : contains x ss ≡ false = ap (λ y. contains y ss) same ∙ new in
      let found : contains x (s ∷ ss) ≡ true =
        ap (λ b. b || contains x ss) ((==-iff_eq s x).1 (sym same)) in
      omega (arith, sum_once x ss d, ap one_if e, ap one_if absent, ap one_if found)
  | inr e ↦
      let later : contains x (s ∷ ss) ≡ contains x ss =
        ap (λ b. b || contains x ss) (==_comm_false x s e) in
      omega (arith, sum_once x ss d, ap one_if e, ap one_if later)
]

sum_of-plus :
    (f g : Text → ℕ) (ss : List Text) → sum_of (λ s. f s + g s) ss ≡ sum_of f ss + sum_of g ss
sum_of-plus f g [] = refl
sum_of-plus f g (s ∷ ss) = omega (arith, sum_of-plus f g ss)

sum_zero : (ss : List Text) → sum_of (λ s. 0) ss ≡ 0
sum_zero [] = refl
sum_zero (s ∷ ss) = omega (arith, sum_zero ss)

-- All findings are counted once if their severities are of the list.
sum-times :
    (ss : List Text) (fs : List Reported)
    → Distinct ss
    → All (λ f. contains (severity f) ss ≡ true) fs
    → sum_of (λ s. times s fs) ss ≡ length fs
sum-times ss [] d h = sum_zero ss
sum-times ss (f ∷ fs) d h =
    sum_of-plus (λ s. one_if (severity f == s)) (λ s. times s fs) ss
    ∙ omega (arith, sum_once (severity f) ss d, ap one_if h.0, sum-times ss fs d h.1)

severities-Distinct : Distinct severities
unfolding severities codes list_beq
severities-Distinct = (refl, (refl, (refl, (refl, (refl, tt)))))

-- The report gives for each severity how many of its findings have it. If the severities of all
-- findings are of the list, the numbers of the list add up to the number of the findings.
pub findings_by_severity-times :
    (fs : List Reported)
    → All (λ f. contains (severity_or_info f.finding.severity) severities ≡ true) fs
    → ((s : Text) → or_else (get s (findings_by_severity fs)) 0 ≡ times s fs)
      × (sum_of (λ s. or_else (get s (findings_by_severity fs)) 0) severities ≡ length fs)
unfolding findings_by_severity no_counts
findings_by_severity-times fs h =
    let each : (s : Text) → counted s (findings_by_severity fs) ≡ times s fs =
      λ s. omega (arith, counted-count_findings s fs no_counts, counted-zeros s severities) in
    (
      each,
      ap (λ f. sum_of f severities) (fun_ext each) ∙ sum-times severities fs severities-Distinct h,
    )
