-- ===== src/ToolSearch/Found.antt =====
-- What a search by key words finds.
use git_agent.Base.{
  inl, inr, Text, codes, Bool, true, false, List, [], ◌∷◌, ◌≡◌, refl, ap, ◌∙◌, ◌||◌, not, ◌++◌,
  take, is_nil, filter_by, insert_sorted, sorted, strip, Bool-cases,
}
use git_agent.Subagents.Registry.{starts_with}
use git_agent.ToolSearch.{
  Search, Tool, max_results, compile_catalog_regex, text_of, match_tools, search_for, search,
}

-- The tools that match, those whose name matches in front of the others, each in the order of the
-- catalog.
abbrev pub name_first : (s : Search) → s.Pattern → List Tool → List Tool
name_first s rx tools =
    let matches = filter_by (λ t. s.finds rx (text_of t)) tools in
    filter_by (λ t. s.finds rx t.name) matches ++ filter_by (λ t. not (s.finds rx t.name)) matches

-- Insertion before the first element that fails the test.
insert-last :
    (p : Tool → Bool) (t : Tool) (ts us : List Tool)
    → p t ≡ false
    → insert_sorted (λ a b. p a || not (p b)) t (filter_by p ts ++ filter_by (λ u. not (p u)) us)
      ≡ filter_by p ts ++ t ∷ filter_by (λ u. not (p u)) us
unfolding insert_sorted
insert-last p t [] [] h = refl
insert-last p t [] (u ∷ us) h = elim (Bool-cases (p u)) [
  | inl q ↦ rw q (insert-last p t [] us h)
  | inr q ↦ rw (q, h) (rw q refl)
]
insert-last p t (u ∷ ts) us h = elim (Bool-cases (p u)) [
  | inl q ↦ rw (q, h) (rw q (ap (λ r. u ∷ r) (insert-last p t ts us h)))
  | inr q ↦ rw q (insert-last p t ts us h)
]

insert-first :
    (p : Tool → Bool) (t : Tool) (ts : List Tool)
    → p t ≡ true
    → insert_sorted (λ a b. p a || not (p b)) t ts ≡ t ∷ ts
unfolding insert_sorted
insert-first p t [] h = refl
insert-first p t (u ∷ ts) h = rw h refl

-- A sort by a test keeps the order of those that pass and of those that fail.
sorted-partition :
    (p : Tool → Bool) (ts : List Tool)
    → sorted (λ a b. p a || not (p b)) ts ≡ filter_by p ts ++ filter_by (λ t. not (p t)) ts
unfolding sorted
sorted-partition p [] = refl
sorted-partition p (t ∷ ts) =
    let before : Tool → Tool → Bool = λ a b. p a || not (p b) in
    ap (insert_sorted before t) (sorted-partition p ts) ∙ elim (Bool-cases (p t)) [
      | inl h ↦ rw h (insert-first p t _ h)
      | inr h ↦ rw h (insert-last p t ts ts h)
    ]

-- A query that is neither blank nor begins, spaces aside, with `select:` or `+` finds the tools of
-- the catalog whose name or description matches: first those whose name matches, then the others,
-- both in the order of the catalog, and of these the first 5.
pub search-name_first :
    (s : Search) (tools : List Tool) (query : Text)
    → is_nil (strip query) ≡ false
    → starts_with (codes "select:") (strip query) ≡ false
    → starts_with (codes "+") (strip query) ≡ false
    → search s tools query ≡ take 5 (name_first s (compile_catalog_regex s (strip query)) tools)
unfolding search search_for match_tools max_results
search-name_first s tools query full not_select not_plus =
    let rx = compile_catalog_regex s (strip query) in
    rw (full, not_select, not_plus)
      (ap (take 5)
        (sorted-partition (λ t. s.finds rx t.name) (filter_by (λ t. s.finds rx (text_of t)) tools)))
