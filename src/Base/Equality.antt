-- ===== src/Base/Equality.antt =====
-- Equality by a Boolean test, as an instance argument.
use Prim.Native.Nat.{ℕ, suc}
use native.Mathlib.Omega.{arith}
use mathlib.Core.Path.{subst, ◌≡◌, refl, sym, ap, ap₂, ◌∙◌}
use mathlib.Core.Logic.{◌↔◌, ◌≢◌, inl, inr}
use mathlib.Core.Bool.{Bool, true, false, not, ◌||◌, ◌&&◌}
use mathlib.Core.Option.{Option, none, some}
use mathlib.Core.List.{List, [], ◌∷◌}
use git_agent.Base.Tests.{if◌then◌else◌, nat_beq, nat_beq_iff, &&-eq_true, Bool-cases}
use git_agent.Base.Lists.{any_by, filter_by, length}

-- A decidable equality of the program: a test, sound and complete.
pub record HasEq {ℓ} (A : Type ℓ) : Type ℓ where
  pub eqb : A → A → Bool
  pub eqb_sound : (a b : A) → eqb a b ≡ true → a ≡ b
  pub eqb_refl : (a : A) → eqb a a ≡ true

infix 50 ◌==◌
abbrev pub ◌==◌ {ℓ} : {A : Type ℓ} ⦃e : HasEq A⦄ → A → A → Bool
◌==◌ ⦃e⦄ a b = e.eqb a b

pub ==-iff_eq {ℓ} : {A : Type ℓ} ⦃e : HasEq A⦄ (a b : A) → ((a == b) ≡ true) ↔ (a ≡ b)
==-iff_eq ⦃e⦄ a b = (e.eqb_sound a b, λ p. subst (λ c. (a == c) ≡ true) p (e.eqb_refl a))

pub ==_refl {ℓ} : {A : Type ℓ} ⦃e : HasEq A⦄ (a : A) → (a == a) ≡ true
==_refl ⦃e⦄ a = (==-iff_eq a a).1 refl

pub ==_ne {ℓ} : {A : Type ℓ} ⦃e : HasEq A⦄ (a b : A) → a ≢ b → (a == b) ≡ false
==_ne ⦃e⦄ a b h = elim (Bool-cases (a == b)) [
  | inl p ↦ absurd (h ((==-iff_eq a b).0 p))
  | inr p ↦ p
]

pub true≢false : true ≢ false
true≢false h = cc

pub ==_comm_false {ℓ} : {A : Type ℓ} ⦃e : HasEq A⦄ (a b : A) → (a == b) ≡ false → (b == a) ≡ false
==_comm_false ⦃e⦄ a b h = ==_ne b a (λ p. true≢false (sym ((==-iff_eq a b).1 (sym p)) ∙ h))

unfoldable pub yes_of {ℓ} : {P : Type ℓ} → Dec P → Bool
yes_of (yes p) = true
yes_of (no q) = false

pub yes_of_iff {ℓ} : {P : Type ℓ} (d : Dec P) → (yes_of d ≡ true) ↔ P
unfolding yes_of
yes_of_iff (yes p) = ((λ _. p), (λ _. refl))
yes_of_iff (no q) = ((λ h. cc), (λ p. absurd (q p)))

-- The test of a decided equality.
abbrev pub eq_of_discrete {ℓ} : {A : Type ℓ} → Discrete A → HasEq A
eq_of_discrete d = record {
  eqb = λ a b. yes_of (d a b);
  eqb_sound = λ a b. (yes_of_iff (d a b)).0;
  eqb_refl = λ a. (yes_of_iff (d a a)).1 refl;
}

instance abbrev pub nat_eq : HasEq ℕ
nat_eq = record {
  eqb = nat_beq;
  eqb_sound = λ a b. (nat_beq_iff a b).0;
  eqb_refl = λ a. (nat_beq_iff a a).1 refl;
}

module _ {ℓ} {A : Type ℓ} ⦃e : HasEq A⦄ where
  unfoldable pub list_beq : List A → List A → Bool
  list_beq [] [] = true
  list_beq [] (y ∷ ys) = false
  list_beq (x ∷ xs) [] = false
  list_beq (x ∷ xs) (y ∷ ys) = x == y && list_beq xs ys

  list_beq_refl : (xs : List A) → list_beq xs xs ≡ true
  unfolding list_beq
  list_beq_refl [] = refl
  list_beq_refl (x ∷ xs) = rw ((==-iff_eq x x).1 refl) (list_beq_refl xs)

  list_beq_sound : (xs ys : List A) → list_beq xs ys ≡ true → xs ≡ ys
  unfolding list_beq
  list_beq_sound [] [] h = refl
  list_beq_sound [] (y ∷ ys) h = cc
  list_beq_sound (x ∷ xs) [] h = cc
  list_beq_sound (x ∷ xs) (y ∷ ys) h =
      let (p, q) = &&-eq_true (x == y) (list_beq xs ys) h in
      ap₂ (λ a as'. a ∷ as') ((==-iff_eq x y).0 p) (list_beq_sound xs ys q)

  pub list_beq_iff : (xs ys : List A) → (list_beq xs ys ≡ true) ↔ (xs ≡ ys)
  list_beq_iff xs ys = (list_beq_sound xs ys, λ p. rw (← p) (list_beq_refl xs))

  unfoldable pub option_beq : Option A → Option A → Bool
  option_beq none none = true
  option_beq none (some b) = false
  option_beq (some a) none = false
  option_beq (some a) (some b) = a == b

  pub option_beq_iff : (a b : Option A) → (option_beq a b ≡ true) ↔ (a ≡ b)
  unfolding option_beq
  option_beq_iff none none = ((λ _. refl), (λ _. refl))
  option_beq_iff none (some b) = ((λ h. cc), (λ h. cc))
  option_beq_iff (some a) none = ((λ h. cc), (λ h. cc))
  option_beq_iff (some a) (some b) =
      ((λ h. ap some ((==-iff_eq a b).0 h)), (λ h. (==-iff_eq a b).1 (cc)))

  -- `a in xs`
  abbrev pub contains : A → List A → Bool
  contains a = any_by (λ x. x == a)

instance abbrev pub list_eq {ℓ} : {A : Type ℓ} ⦃e : HasEq A⦄ → HasEq (List A)
list_eq = record {
  eqb = list_beq;
  eqb_sound = λ a b. (list_beq_iff a b).0;
  eqb_refl = λ a. (list_beq_iff a a).1 refl;
}

instance abbrev pub option_eq {ℓ} : {A : Type ℓ} ⦃e : HasEq A⦄ → HasEq (Option A)
option_eq = record {
  eqb = option_beq;
  eqb_sound = λ a b. (option_beq_iff a b).0;
  eqb_refl = λ a. (option_beq_iff a a).1 refl;
}

module _ {ℓ κ} {A : Type ℓ} {B : Type κ} ⦃e : HasEq A⦄ ⦃f : HasEq B⦄ where
  unfoldable pub pair_beq : A × B → A × B → Bool
  pair_beq p q = p.0 == q.0 && p.1 == q.1

  pub pair_beq_iff : (p q : A × B) → (pair_beq p q ≡ true) ↔ (p ≡ q)
  unfolding pair_beq
  pair_beq_iff p q = (
    (λ h.
        let (u, v) = &&-eq_true _ _ h in
        let u' = (==-iff_eq p.0 q.0).0 u in let v' = (==-iff_eq p.1 q.1).0 v in λ i. (u' i, v' i)),
    (λ h. rw ((==-iff_eq p.0 q.0).1 (ap (λ r. r.0) h)) ((==-iff_eq p.1 q.1).1 (ap (λ r. r.1) h))),
  )

instance abbrev pub pair_eq {ℓ κ} :
    {A : Type ℓ} {B : Type κ} ⦃e : HasEq A⦄ ⦃f : HasEq B⦄ → HasEq (A × B)
pair_eq = record {
  eqb = pair_beq;
  eqb_sound = λ a b. (pair_beq_iff a b).0;
  eqb_refl = λ a. (pair_beq_iff a a).1 refl;
}

module _ {ℓ} {A : Type ℓ} ⦃e : HasEq A⦄ where
  -- `set(xs)`, listed in the order of the first occurrences.
  unfoldable pub to_set : List A → List A
  to_set [] = []
  to_set (x ∷ xs) = x ∷ filter_by (λ y. not (y == x)) (to_set xs)

  -- No element twice.
  abbrev pub Distinct : List A → Type 0
  Distinct [] = Unit
  Distinct (x ∷ xs) = (contains x xs ≡ false) × Distinct xs

  pub contains-filter_by :
      (p : A → Bool) (a : A) (xs : List A)
      → p a ≡ true
      → contains a (filter_by p xs) ≡ contains a xs
  contains-filter_by p a [] h = refl
  contains-filter_by p a (x ∷ xs) h = elim (Bool-cases (p x)) [
    | inl q ↦ rw q (ap (λ b. x == a || b) (contains-filter_by p a xs h))
    | inr q ↦ elim (Bool-cases (x == a)) [
      | inl r ↦ absurd (true≢false (sym h ∙ ap p (sym ((==-iff_eq x a).0 r)) ∙ q))
      | inr r ↦ rw (q, r) (contains-filter_by p a xs h)
    ]
  ]

  pub contains-to_set : (a : A) (xs : List A) → contains a (to_set xs) ≡ contains a xs
  unfolding to_set
  contains-to_set a [] = refl
  contains-to_set a (x ∷ xs) = elim (Bool-cases (x == a)) [
    | inl p ↦ rw p
    | inr p ↦ rw p (
        contains-filter_by (λ y. not (y == x)) a (to_set xs) (rw (==_comm_false x a p))
        ∙ contains-to_set a xs)
  ]

  -- How often `a` stands in the list.
  abbrev pub count : A → List A → ℕ
  count a xs = length (filter_by (λ x. x == a) xs)

module _ {ℓ} {A : Type ℓ} ⦃e : HasEq A⦄ where
  -- `xs.remove(a)`: without the first `a`.
  unfoldable pub remove_one : A → List A → List A
  remove_one a [] = []
  remove_one a (x ∷ xs) = let rest = remove_one a xs in if x == a then xs else x ∷ rest

  pub length-remove_one :
      (a : A) (xs : List A) → contains a xs ≡ true → length xs ≡ suc (length (remove_one a xs))
  unfolding remove_one
  length-remove_one a [] h = cc
  length-remove_one a (x ∷ xs) h = elim (Bool-cases (x == a)) [
    | inl p ↦ rw p refl
    | inr p ↦ rw p (ap suc (length-remove_one a xs (subst (λ b. (b || contains a xs) ≡ true) p h)))
  ]

  pub contains-remove_one-false :
      (b a : A) (xs : List A) → contains b xs ≡ false → contains b (remove_one a xs) ≡ false
  unfolding remove_one
  contains-remove_one-false b a [] h = refl
  contains-remove_one-false b a (x ∷ xs) h = ground (arith, contains-remove_one-false b a xs)

  pub remove_one-Distinct : (a : A) (xs : List A) → Distinct xs → Distinct (remove_one a xs)
  unfolding remove_one
  remove_one-Distinct a [] h = tt
  remove_one-Distinct a (x ∷ xs) h = elim (Bool-cases (x == a)) [
    | inl p ↦ rw p h.1
    | inr p ↦ rw p (contains-remove_one-false x a xs h.0, remove_one-Distinct a xs h.1)
  ]
