-- ===== src/Subagents/Citations/Parsing.antt =====
-- The citations that are read out of a report.
use git_agent.Base.{
  Text, Bool, true, false, Option, List, [], ◌∷◌, ◌≡◌, refl, ℕ, ◌||◌, if◌then◌else◌, All, All-map,
  Distinct, contains, nat_eq, list_eq, option_eq, pair_eq, ◌==◌, ==_comm_false, ||-eq_false, length,
  ltb,
}
use git_agent.Subagents.Citations.{
  Matcher, receipt_id, parse_from, parse_citations, max_receipt_id_digits,
}

-- None of the citations is among the seen ones.
abbrev Unseen : List (Text × Option Text) → List (Text × Option Text) → Type 0
Unseen seen cs = All (λ c. contains c seen ≡ false) cs

absent_of_Unseen :
    (a : Text × Option Text) (seen cs : List (Text × Option Text))
    → Unseen (a ∷ seen) cs
    → contains a cs ≡ false
absent_of_Unseen a seen [] h = refl
absent_of_Unseen a seen (c ∷ cs) h =
    let (p, q) = ||-eq_false (a == c) _ h.0 in
    rw (==_comm_false a c p) (absent_of_Unseen a seen cs h.1)

-- One turn of the loop: too long or seen, or a new citation.
dedup :
    (long old : Bool) (a : Text × Option Text) (seen xs ys : List (Text × Option Text))
    → contains a seen ≡ old
    → Distinct xs × Unseen seen xs
    → Distinct ys
    → Unseen (a ∷ seen) ys
    → Distinct (if long || old then xs else a ∷ ys)
      × Unseen seen (if long || old then xs else a ∷ ys)
dedup true old a seen xs ys e hx hd hu = hx
dedup false true a seen xs ys e hx hd hu = hx
dedup false false a seen xs ys e hx hd hu =
    ((absent_of_Unseen a seen ys hu, hd), (e, All-map ys (λ c h. (||-eq_false (a == c) _ h).1) hu))

parse_from-Distinct :
    (int_of : Text → ℕ) (seen ms : List (Text × Option Text))
    → Distinct (parse_from int_of seen ms) × Unseen seen (parse_from int_of seen ms)
unfolding parse_from
parse_from-Distinct int_of seen [] = (tt, tt)
parse_from-Distinct int_of seen (m ∷ ms) =
    let a : Text × Option Text = (receipt_id (int_of m.0), m.1) in
    let (d, u) = parse_from-Distinct int_of (a ∷ seen) ms in
    dedup (ltb max_receipt_id_digits (length m.0)) (contains a seen) a seen _ _ refl
      (parse_from-Distinct int_of seen ms) d u

-- No citation is listed twice, however often a report makes it.
pub parse_citations-Distinct : (re : Matcher) (report : Text) → Distinct (parse_citations re report)
unfolding parse_citations
parse_citations-Distinct re report = (parse_from-Distinct re.int_of [] (re.citations report)).0
