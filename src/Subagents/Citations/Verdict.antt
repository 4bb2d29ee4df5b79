-- ===== src/Subagents/Citations/Verdict.antt =====
-- The verdict on a report's citations.
use git_agent.Base.{
  Text, codes, Bool, true, false, Option, none, some, List, [], ◌∷◌, ◌≡◌, ◌⊎◌, ◌↔◌, refl, sym, ap,
  ◌∙◌, ◌+◌, ◌&&◌, All, all_by, is_nil, length, map, Dict, get, nat_eq, list_eq, option_eq, pair_eq,
  ==-iff_eq, arith, suc, if_false, the_some, subst, &&-eq_true, length,
}
use git_agent.Subagents.Citations.{
  ToolReceipt, Matcher, Judgement, resolves, unknown_id, fails, judge_found, judge_receipt, judge,
  Sorted, sort_one, sort_citations, parse_citations, index_from, verify_receipt_citations,
}

-- A receipt that bears the citation out: of a call that succeeded, and of the tool that is named,
-- if one is.
abbrev pub IsBacked : Dict Text ToolReceipt → Text × Option Text → Type 0
IsBacked by_id c =
    (r : ToolReceipt) × (get c.0 by_id ≡ some r)
    × (r.status ≡ codes "success")
    × ((c.1 ≡ none) ⊎ (c.1 ≡ some r.tool_name))

abbrev is_resolved : Judgement → Bool
is_resolved resolves = true
is_resolved unknown_id = false
is_resolved (fails why) = false

judge_found_iff :
    (rid : Text) (anchor : Option Text) (r : ToolReceipt)
    → (is_resolved (judge_found rid anchor r) ≡ true)
      ↔ ((r.status ≡ codes "success") × ((anchor ≡ none) ⊎ (anchor ≡ some r.tool_name)))
unfolding judge_found
judge_found_iff rid none r = ground (arith, ==-iff_eq r.status (codes "success"))
judge_found_iff rid (some a) r =
    ground (arith, ==-iff_eq r.status (codes "success"), ==-iff_eq (some a) (some r.tool_name))

none_is_not_some : {r : ToolReceipt} → none ≡ some r → ⊥
none_is_not_some h = cc

judge_receipt_iff :
    (rid : Text) (anchor : Option Text) (o : Option ToolReceipt)
    → (is_resolved (judge_receipt rid anchor o) ≡ true) ↔ (
        (r : ToolReceipt) × (o ≡ some r)
        × (r.status ≡ codes "success")
        × ((anchor ≡ none) ⊎ (anchor ≡ some r.tool_name)))
unfolding judge_receipt
judge_receipt_iff rid anchor none = ((λ h. cc), (λ h. absurd (none_is_not_some h.1)))
judge_receipt_iff rid anchor (some r) = (
  (λ h. let (ok, named) = (judge_found_iff rid anchor r).0 h in (r, refl, ok, named)),
  (λ h.
      subst (λ q. is_resolved (judge_found rid anchor q) ≡ true) (sym (the_some h.1))
        ((judge_found_iff rid anchor h.0).1 (h.2, h.3))),
)

judge_iff :
    (by_id : Dict Text ToolReceipt) (c : Text × Option Text)
    → (is_resolved (judge by_id c) ≡ true) ↔ IsBacked by_id c
unfolding judge
judge_iff by_id c = judge_receipt_iff c.0 c.1 (get c.0 by_id)

sort_one-good :
    (rid : Text) (j : Judgement) (s : Sorted)
    → (is_nil (sort_one rid j s).failed && is_nil (sort_one rid j s).unknown)
      ≡ (is_resolved j && (is_nil s.failed && is_nil s.unknown))
unfolding sort_one
sort_one-good rid resolves s = refl
sort_one-good rid unknown_id s = ground arith
sort_one-good rid (fails why) s = refl

length-sort_one :
    (rid : Text) (j : Judgement) (s : Sorted)
    → length (sort_one rid j s).resolved
        + length (sort_one rid j s).failed
        + length (sort_one rid j s).unknown
      ≡ suc (length s.resolved + length s.failed + length s.unknown)
unfolding sort_one
length-sort_one rid resolves s = omega arith
length-sort_one rid unknown_id s = omega arith
length-sort_one rid (fails why) s = omega arith

module _ (by_id : Dict Text ToolReceipt) where
  good-sort_citations :
      (cs : List (Text × Option Text))
      → (is_nil (sort_citations by_id cs).failed && is_nil (sort_citations by_id cs).unknown)
        ≡ all_by (λ c. is_resolved (judge by_id c)) cs
  unfolding sort_citations
  good-sort_citations [] = refl
  good-sort_citations (c ∷ cs) =
      sort_one-good c.0 (judge by_id c) (sort_citations by_id cs)
      ∙ ap (λ b. is_resolved (judge by_id c) && b) (good-sort_citations cs)

  length-sort_citations :
      (cs : List (Text × Option Text))
      → length (sort_citations by_id cs).resolved
          + length (sort_citations by_id cs).failed
          + length (sort_citations by_id cs).unknown
        ≡ length cs
  unfolding sort_citations
  length-sort_citations [] = omega arith
  length-sort_citations (c ∷ cs) = omega (
    arith,
    length-sort_one c.0 (judge by_id c) (sort_citations by_id cs),
    length-sort_citations cs,
  )

  all_by-IsBacked :
      (cs : List (Text × Option Text))
      → (all_by (λ c. is_resolved (judge by_id c)) cs ≡ true) ↔ All (IsBacked by_id) cs
  all_by-IsBacked [] = ((λ h. tt), (λ h. refl))
  all_by-IsBacked (c ∷ cs) = (
    (λ h.
        let (p, q) = &&-eq_true (is_resolved (judge by_id c)) _ h in
        ((judge_iff by_id c).0 p, (all_by-IsBacked cs).0 q)),
    (λ h. rw ((judge_iff by_id c).1 h.0) ((all_by-IsBacked cs).1 h.1)),
  )

-- A report that cites something is found in order exactly if every citation is backed: its id is
-- that of a receipt, the last one with that id, whose call succeeded and whose tool is the named
-- one.
pub citation_resolved-IsBacked :
    (re : Matcher) (report : Text) (receipts : List ToolReceipt)
    → is_nil (parse_citations re report) ≡ false
    → ((verify_receipt_citations re report receipts).citation_resolved ≡ true)
      ↔ All (IsBacked (index_from [] receipts)) (parse_citations re report)
unfolding verify_receipt_citations
citation_resolved-IsBacked re report receipts h =
    let by_id : Dict Text ToolReceipt = index_from [] receipts in
    let cs : List (Text × Option Text) = parse_citations re report in
    let good = good-sort_citations by_id cs in
    (
      (λ p. (all_by-IsBacked by_id cs).0 (sym good ∙ sym (if_false _ _ _ h) ∙ p)),
      (λ p. if_false _ _ _ h ∙ good ∙ (all_by-IsBacked by_id cs).1 p),
    )

length-map : (cs : List (Text × Option Text)) → length (map (λ c. c.0) cs) ≡ length cs
length-map [] = refl
length-map (c ∷ cs) = ap suc (length-map cs)

-- Every citation is counted once: as resolved, as failed or as unknown.
pub length-verify_receipt_citations :
    (re : Matcher) (report : Text) (receipts : List ToolReceipt)
    → let v = verify_receipt_citations re report receipts in
      length v.resolved + length v.failed + length v.unknown ≡ length v.cited
unfolding verify_receipt_citations
length-verify_receipt_citations re report receipts = omega (
  arith,
  length-sort_citations (index_from [] receipts) (parse_citations re report),
  length-map (parse_citations re report),
)
