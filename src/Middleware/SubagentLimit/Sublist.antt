-- ===== src/Middleware/SubagentLimit/Sublist.antt =====
-- Choosing calls by their ids is choosing a sublist, where the ids are distinct.
use git_agent.Base.{
  Bool, false, List, [], ◌∷◌, ◌≡◌, refl, ap, ◌∙◌, All, All-map, contains, filter_by, Distinct,
  HasEq, nat_eq, list_eq, option_eq, ◌==◌, ==_refl, ==_comm_false, ||-eq_false, map,
}

-- `ys` is `xs` with some elements left out.
pub data Sub {ℓ} {A : Type ℓ} : List A → List A → Type ℓ where
  done : Sub [] []
  skip : {ys xs : List A} (x : A) → Sub ys xs → Sub ys (x ∷ xs)
  keep : {ys xs : List A} (x : A) → Sub ys xs → Sub (x ∷ ys) (x ∷ xs)

module _ {ℓ κ} {A : Type ℓ} {K : Type κ} ⦃e : HasEq K⦄ (id : A → K) where
  -- what has another key than `a`
  abbrev pub Apart : K → List A → Type 0
  Apart a xs = All (λ x. (id x == a) ≡ false) xs

  pub Apart-of_absent : (a : K) (xs : List A) → contains a (map id xs) ≡ false → Apart a xs
  Apart-of_absent a [] h = tt
  Apart-of_absent a (x ∷ xs) h = let (p, q) = ||-eq_false _ _ h in (p, Apart-of_absent a xs q)

  pub filter_by_congr :
      (p q : A → Bool) (xs : List A) → All (λ x. p x ≡ q x) xs → filter_by p xs ≡ filter_by q xs
  filter_by_congr p q [] h = refl
  filter_by_congr p q (x ∷ xs) h = rw (h.0, filter_by_congr p q xs h.1)

  Sub-absent :
      (a : K) {ys xs : List A}
      → Sub ys xs
      → contains a (map id xs) ≡ false
      → contains a (map id ys) ≡ false
  Sub-absent a done h = h
  Sub-absent a (skip x s) h = Sub-absent a s (||-eq_false _ _ h).1
  Sub-absent a (keep x s) h = let (p, q) = ||-eq_false (id x == a) _ h in rw p (Sub-absent a s q)

  -- Away from `x`, its key makes no difference.
  pub Apart-contains :
      (x : A) (ys xs : List A)
      → Apart (id x) xs
      → All (λ y. contains (id y) (map id (x ∷ ys)) ≡ contains (id y) (map id ys)) xs
  Apart-contains x ys xs h = All-map xs (λ y p. rw (==_comm_false (id y) (id x) p)) h

  -- Filtering by the keys of a sublist gives the sublist.
  pub filter_by-Sub :
      {ys xs : List A}
      → Sub ys xs
      → Distinct (map id xs)
      → filter_by (λ x. contains (id x) (map id ys)) xs ≡ ys
  filter_by-Sub done d = refl
  filter_by-Sub (skip x s) d = rw (Sub-absent (id x) s d.0) (filter_by-Sub s d.1)
  filter_by-Sub {ys = _ ∷ ys} {xs = _ ∷ xs} (keep x s) d = rw (==_refl (id x)) (
      ap (λ r. x ∷ r)
        (filter_by_congr _ _ xs (Apart-contains x ys xs (Apart-of_absent (id x) xs d.0))
          ∙ filter_by-Sub s d.1))
