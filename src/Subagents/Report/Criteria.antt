-- ===== src/Subagents/Report/Criteria.antt =====
-- The acceptance criteria that a task passes on.
use git_agent.Base.{
  Text, Bool, true, false, List, [], ◌∷◌, ◌≡◌, refl, ap, ◌∙◌, ℕ, zero, suc, ◌+◌, ◌-◌, ◌≤◌, ◌<◌,
  arith, leb, leb→le, le→leb, take, map, filter_by, is_nil, not, if◌then◌else◌,
}
use git_agent.Value.{Values, null, bool, int, str, arr, obj, other, nil, cons}
use git_agent.Subagents.Report.{
  max_acceptance_criteria, clean_criterion, add_criterion, criteria_from, render_criteria,
  render_acceptance_criteria_block,
}

-- The texts among the values.
abbrev pub texts_of : Values → List Text
texts_of nil = []
texts_of (cons (str s) vs) = s ∷ texts_of vs
texts_of (cons _ vs) = texts_of vs

-- All criteria, without a limit on their number.
abbrev pub criteria_of : Values → List Text
criteria_of vs = filter_by (λ t. not (is_nil t)) (map clean_criterion (texts_of vs))

take-nil : (n : ℕ) → [] ≡ take {A = Text} n []
take-nil zero = refl
take-nil (suc n) = refl

take_none :
    (k : ℕ) (ts : List Text)
    → max_acceptance_criteria ≤ k
    → [] ≡ take (max_acceptance_criteria - k) ts
take_none k ts h =
    let none_left : 0 ≡ max_acceptance_criteria - k = omega arith in ap (λ n. take n ts) none_left

take_one :
    (n : ℕ) (t : Text) (ts : List Text)
    → n < max_acceptance_criteria
    → t ∷ take (max_acceptance_criteria - (n + 1)) ts ≡ take (max_acceptance_criteria - n) (t ∷ ts)
take_one n t ts h =
    let one_left : suc (max_acceptance_criteria - (n + 1)) ≡ max_acceptance_criteria - n =
      omega arith in
    ap (λ k. take k (t ∷ ts)) one_left

-- At the limit the loop ends, before it the rest is read.
either-take :
    (b : Bool) (k : ℕ) (rest ts : List Text)
    → (b ≡ true → max_acceptance_criteria ≤ k)
    → (b ≡ false → rest ≡ take (max_acceptance_criteria - k) ts)
    → (if b then [] else rest) ≡ take (max_acceptance_criteria - k) ts
either-take true k rest ts full more = take_none k ts (full refl)
either-take false k rest ts full more = more refl

add_criterion-take :
    (n : ℕ) (t : Text) (rest : ℕ → List Text) (ts : List Text)
    → n < max_acceptance_criteria
    → ((k : ℕ) → k < max_acceptance_criteria → rest k ≡ take (max_acceptance_criteria - k) ts)
    → add_criterion n t rest
      ≡ take (max_acceptance_criteria - n) (if not (is_nil t) then t ∷ ts else ts)
unfolding add_criterion
add_criterion-take n [] rest ts h ih =
    either-take (leb max_acceptance_criteria n) n (rest n) ts (leb→le max_acceptance_criteria n)
      (λ e. ih n h)
add_criterion-take n (c ∷ t) rest ts h ih =
    ap (λ cs. (c ∷ t) ∷ cs)
      (either-take (leb max_acceptance_criteria (n + 1)) (n + 1) (rest (n + 1)) ts
        (leb→le max_acceptance_criteria (n + 1))
        (λ e. ih (n + 1) (ground (arith, le→leb max_acceptance_criteria (n + 1), e))))
    ∙ take_one n (c ∷ t) ts h

criteria_from-take :
    (n : ℕ) (vs : Values)
    → n < max_acceptance_criteria
    → criteria_from n vs ≡ take (max_acceptance_criteria - n) (criteria_of vs)
unfolding criteria_from
criteria_from-take n nil h = take-nil (max_acceptance_criteria - n)
criteria_from-take n (cons (str s) vs) h =
    add_criterion-take n (clean_criterion s) _ _ h (λ k hk. criteria_from-take k vs hk)
criteria_from-take n (cons null vs) h = criteria_from-take n vs h
criteria_from-take n (cons (bool b) vs) h = criteria_from-take n vs h
criteria_from-take n (cons (int i) vs) h = criteria_from-take n vs h
criteria_from-take n (cons (arr ws) vs) h = criteria_from-take n vs h
criteria_from-take n (cons (obj d) vs) h = criteria_from-take n vs h
criteria_from-take n (cons (other s) vs) h = criteria_from-take n vs h

-- A task message names the first twenty of the criteria that are texts and are not blank, each
-- stripped and cut to 500 characters, and is left as it is if there are none.
pub render_acceptance_criteria_block-take :
    (vs : Values)
    → render_acceptance_criteria_block vs
      ≡ render_criteria (take max_acceptance_criteria (criteria_of vs))
unfolding render_acceptance_criteria_block
render_acceptance_criteria_block-take vs =
    ap render_criteria (criteria_from-take 0 vs (omega arith))
