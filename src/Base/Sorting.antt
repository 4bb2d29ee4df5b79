-- ===== src/Base/Sorting.antt =====
-- `sorted`: a stable insertion sort by a Boolean order.
use mathlib.Core.Path.{◌≡◌, refl, ap, ◌∙◌}
use mathlib.Core.Logic.{inl, inr}
use mathlib.Core.Bool.{Bool, true, false, ◌||◌}
use mathlib.Core.List.{List, [], ◌∷◌, map}
use native.Mathlib.Omega.{arith}
use git_agent.Base.Tests.{if◌then◌else◌, Bool-cases, ||-eq_false}
use git_agent.Base.Lists.{All, All-map}
use git_agent.Base.Equality.{HasEq, ◌==◌, ==_comm_false, contains, Distinct}

module _ {ℓ} {A : Type ℓ} (before : A → A → Bool) where
  unfoldable pub insert_sorted : A → List A → List A
  insert_sorted x [] = x ∷ []
  insert_sorted x (y ∷ ys) = if before x y then x ∷ y ∷ ys else y ∷ insert_sorted x ys

  unfoldable pub sorted : List A → List A
  unfolding insert_sorted
  sorted [] = []
  sorted (x ∷ xs) = insert_sorted x (sorted xs)

module _ {ℓ κ} {A : Type ℓ} (P : A → Type κ) (before : A → A → Bool) where
  pub insert_sorted-All : (x : A) (xs : List A) → P x → All P xs → All P (insert_sorted before x xs)
  unfolding insert_sorted
  insert_sorted-All x [] p h = (p, tt)
  insert_sorted-All x (y ∷ ys) p h = elim (Bool-cases (before x y)) [
    | inl first ↦ rw first (p, h)
    | inr later ↦ rw later (h.0, insert_sorted-All x ys p h.1)
  ]

  pub sorted-All : (xs : List A) → All P xs → All P (sorted before xs)
  unfolding sorted
  sorted-All [] h = tt
  sorted-All (x ∷ xs) h = insert_sorted-All x (sorted before xs) h.0 (sorted-All xs h.1)

-- Every element is before all that follow it.
abbrev pub Ordered {ℓ} : {A : Type ℓ} → (A → A → Bool) → List A → Type 0
Ordered before [] = Unit
Ordered before (x ∷ xs) = All (λ y. before x y ≡ true) xs × Ordered before xs

module _ {ℓ} {A : Type ℓ} (before : A → A → Bool)
    (total : (x y : A) → before x y ≡ false → before y x ≡ true)
    (trans : (x y z : A) → before x y ≡ true → before y z ≡ true → before x z ≡ true) where
  insert_sorted-Ordered :
      (x : A) (xs : List A) → Ordered before xs → Ordered before (insert_sorted before x xs)
  unfolding insert_sorted
  insert_sorted-Ordered x [] h = (tt, tt)
  insert_sorted-Ordered x (y ∷ ys) h = elim (Bool-cases (before x y)) [
    | inl first ↦ rw first ((first, All-map ys (λ z q. trans x y z first q) h.0), h)
    | inr later ↦ rw later (
      insert_sorted-All (λ z. before y z ≡ true) before x ys (total x y later) h.0,
      insert_sorted-Ordered x ys h.1,
    )
  ]

  -- What is sorted by a total order is in order.
  pub sorted-Ordered : (xs : List A) → Ordered before (sorted before xs)
  unfolding sorted
  sorted-Ordered [] = tt
  sorted-Ordered (x ∷ xs) = insert_sorted-Ordered x (sorted before xs) (sorted-Ordered xs)

module _ {ℓ κ} {A : Type ℓ} {K : Type κ} ⦃e : HasEq K⦄ (key : A → K) (before : A → A → Bool) where
  contains-insert_sorted :
      (k : K) (x : A) (xs : List A)
      → contains k (map key (insert_sorted before x xs)) ≡ (key x == k || contains k (map key xs))
  unfolding insert_sorted
  contains-insert_sorted k x [] = refl
  contains-insert_sorted k x (y ∷ ys) = ground (arith, contains-insert_sorted k x ys)

  -- Sorting neither adds nor loses a key.
  pub contains-sorted :
      (k : K) (xs : List A) → contains k (map key (sorted before xs)) ≡ contains k (map key xs)
  unfolding sorted
  contains-sorted k [] = refl
  contains-sorted k (x ∷ xs) =
      contains-insert_sorted k x (sorted before xs)
      ∙ ap (λ b. key x == k || b) (contains-sorted k xs)

  insert_sorted-Distinct :
      (x : A) (xs : List A)
      → contains (key x) (map key xs) ≡ false
      → Distinct (map key xs)
      → Distinct (map key (insert_sorted before x xs))
  unfolding insert_sorted
  insert_sorted-Distinct x [] h d = (refl, tt)
  insert_sorted-Distinct x (y ∷ ys) h d = elim (Bool-cases (before x y)) [
    | inl first ↦ rw first (h, d)
    | inr later ↦
        let (apart, absent) = ||-eq_false (key y == key x) _ h in
        rw later (
          contains-insert_sorted (key y) x ys
              ∙ ap (λ b. b || contains (key y) (map key ys)) (==_comm_false (key y) (key x) apart)
              ∙ d.0,
          insert_sorted-Distinct x ys absent d.1,
        )
  ]

  pub sorted-Distinct :
      (xs : List A) → Distinct (map key xs) → Distinct (map key (sorted before xs))
  unfolding sorted
  sorted-Distinct [] d = tt
  sorted-Distinct (x ∷ xs) d =
      insert_sorted-Distinct x (sorted before xs) (contains-sorted (key x) xs ∙ d.0)
        (sorted-Distinct xs d.1)
