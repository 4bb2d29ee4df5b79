-- ===== src/Base/Maps.antt =====
-- A Python dictionary: an association list in the order of insertion. A new value for an old key
-- keeps the key's place.
use mathlib.Core.Path.{◌≡◌, refl}
use mathlib.Core.Option.{Option, none, some}
use mathlib.Core.List.{List, [], ◌∷◌}
use native.Mathlib.Omega.{arith}
use mathlib.Core.Path.{sym, ap, ◌∙◌, subst}
use mathlib.Core.Logic.{inl, inr}
use mathlib.Core.Bool.{◌||◌}
use mathlib.Core.List.{map}
use git_agent.Base.Lists.{All}
use git_agent.Base.Tests.{if◌then◌else◌, Bool-cases}
use git_agent.Base.Equality.{HasEq, ◌==◌, ==-iff_eq, ==_comm_false, contains, Distinct}

abbrev pub Dict {ℓ κ} : Type ℓ → Type κ → Type (ℓ ⊔ κ)
Dict K V = List (K × V)

module _ {ℓ κ} {K : Type ℓ} {V : Type κ} ⦃e : HasEq K⦄ where
  unfoldable pub get : K → Dict K V → Option V
  get k [] = none
  get k ((j, v) ∷ d) = if j == k then some v else get k d

  unfoldable pub put : K → V → Dict K V → Dict K V
  put k v [] = (k, v) ∷ []
  put k v ((j, w) ∷ d) = if j == k then (j, v) ∷ d else (j, w) ∷ put k v d

  unfoldable pub pop : K → Dict K V → Dict K V
  pop k [] = []
  pop k ((j, w) ∷ d) = let rest = pop k d in if j == k then rest else (j, w) ∷ rest

  pub get-put :
      (k j : K) (v : V) (d : Dict K V) → get j (put k v d) ≡ (if k == j then some v else get j d)
  unfolding get put
  get-put k j v [] = refl
  get-put k j v ((i, w) ∷ d) =
      ground (arith, ==-iff_eq k j, ==-iff_eq i k, ==-iff_eq i j, get-put k j v d)

  pub get-pop : (k j : K) (d : Dict K V) → get j (pop k d) ≡ (if k == j then none else get j d)
  unfolding get pop
  get-pop k j [] = ground arith
  get-pop k j ((i, w) ∷ d) =
      ground (arith, ==-iff_eq k j, ==-iff_eq i k, ==-iff_eq i j, get-pop k j d)

  -- Writing the value that is there changes nothing.
  pub put-get_self : (k : K) (v : V) (d : Dict K V) → get k d ≡ some v → put k v d ≡ d
  unfolding get put
  put-get_self k v [] h = cc
  put-get_self k v ((i, w) ∷ d) h = ground (arith, put-get_self k v d)

module _ {ℓ κ ι} {K : Type ℓ} {V : Type κ} ⦃e : HasEq K⦄ where
  -- A property of all entries survives a write that has it.
  pub put-All :
      (P : K × V → Type ι) (k : K) (v : V) (d : Dict K V) → P (k, v) → All P d → All P (put k v d)
  unfolding put
  put-All P k v [] p h = (p, tt)
  put-All P k v ((j, w) ∷ d) p h = elim (Bool-cases (j == k)) [
    | inl same ↦ rw same (subst (λ i. P (i, v)) (sym ((==-iff_eq j k).0 same)) p, h.1)
    | inr apart ↦ rw apart (h.0, put-All P k v d p h.1)
  ]

module _ {ℓ κ} {K : Type ℓ} {V : Type κ} ⦃e : HasEq K⦄ where
  abbrev pub keys : Dict K V → List K
  keys d = map (λ p. p.0) d

  pub contains-keys-put :
      (j k : K) (v : V) (d : Dict K V)
      → contains j (keys (put k v d)) ≡ (k == j || contains j (keys d))
  unfolding put
  contains-keys-put j k v [] = refl
  contains-keys-put j k v ((i, w) ∷ d) =
      ground (arith, ==-iff_eq i k, ==-iff_eq k j, ==-iff_eq i j, contains-keys-put j k v d)

  pub keys-put-Distinct :
      (k : K) (v : V) (d : Dict K V) → Distinct (keys d) → Distinct (keys (put k v d))
  unfolding put
  keys-put-Distinct k v [] h = (refl, tt)
  keys-put-Distinct k v ((j, w) ∷ d) h = elim (Bool-cases (j == k)) [
    | inl same ↦ rw same h
    | inr apart ↦ rw apart (
      contains-keys-put j k v d
          ∙ ap (λ b. b || contains j (keys d)) (==_comm_false j k apart)
          ∙ h.0,
      keys-put-Distinct k v d h.1,
    )
  ]
