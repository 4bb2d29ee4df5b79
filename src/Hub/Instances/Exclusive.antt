-- ===== src/Hub/Instances/Exclusive.antt =====
-- An instance is held by one runner at a time.
use git_agent.Base.{
  Text, codes, Bool, true, false, Option, none, some, List, [], ◌∷◌, ◌≡◌, refl, sym, ap, ◌∙◌, subst,
  inl, inr, ℕ, ◌&&◌, ℤ, get, get-put, All, if◌then◌else◌, if_true, if_false, Bool-cases, nat_eq,
  list_eq, list_beq, option_eq, option_beq, int_eq, ◌==◌, ==-iff_eq, ==_refl, true≢false, the_some,
  &&-eq_true,
}
use git_agent.Runner.Slots.{ClaimResult}
use git_agent.Hub.Instances.{
  running, is_down, InstanceRow, Instances, register_runner, holder_address, said, held_by_other,
  with_row, is_claimable, claim_row, claim_instance, peek_row, peek_holder, release_row,
  release_instance,
}

-- What a runner may do to the tables.
pub data Operation : Type 0 where
  registers : Text → Text → ℕ → Operation
  claims : ℤ → ℕ → Operation
  releases : ℤ → ℕ → Operation

unfoldable pub perform : Operation → Instances → Instances
perform (registers name address slots) t = (register_runner name address slots t).1
perform (claims id r) t = (claim_instance id r t).1
perform (releases id r) t = (release_instance id r t).1

unfoldable pub perform_all : List Operation → Instances → Instances
perform_all [] t = t
perform_all (o ∷ os) t = perform_all os (perform o t)

abbrev pub is_release : ℤ → ℕ → Operation → Bool
is_release id r (releases id' r') = id' == id && r' == r
is_release id r _ = false

abbrev pub held : ℕ → InstanceRow
held r = record { status = running; runner_id = some r }

abbrev Holds : ℤ → ℕ → Instances → Type 0
Holds id r t = get id t.rows ≡ some (held r)

either-Holds :
    {A : Type 0} (id : ℤ) (r : ℕ) (b : Bool) (x y : A × Instances)
    → (b ≡ true → Holds id r x.1)
    → (b ≡ false → Holds id r y.1)
    → Holds id r (if b then x else y).1
either-Holds id r true x y p q = p refl
either-Holds id r false x y p q = q refl

-- A runner claims what another holds only if it is the other.
claimed_by_holder : (q r : ℕ) → is_claimable q (held r) ≡ true → q ≡ r
unfolding is_claimable option_beq
claimed_by_holder q r c = sym ((==-iff_eq r q).0 c)

-- A runner releases what another holds only if it is the other.
released_holder :
    (q r : ℕ) (w : InstanceRow)
    → w ≡ held r
    → (w.runner_id == some q && (if is_down w.status then false else true)) ≡ true
    → (q == r) ≡ true
unfolding option_beq
released_holder q r w e c =
    let c' : (r == q && true) ≡ true =
      subst (λ v. (v.runner_id == some q && (if is_down v.status then false else true)) ≡ true) e
        c in
    (==-iff_eq q r).1 (sym ((==-iff_eq r q).0 (&&-eq_true _ _ c').0))

module _ (id : ℤ) (r : ℕ) (t : Instances) (h : Holds id r t) where
  -- The row of the instance is the one that its holder wrote.
  row_of_holder :
      (id' : ℤ) (row : InstanceRow) → get id' t.rows ≡ some row → (id' == id) ≡ true → row ≡ held r
  row_of_holder id' row e same =
      the_some (sym e ∙ ap (λ i. get i t.rows) ((==-iff_eq id' id).0 same) ∙ h)

  put-Holds :
      (id' : ℤ) (row : InstanceRow)
      → ((id' == id) ≡ true → row ≡ held r)
      → Holds id r (with_row id' row t)
  put-Holds id' row fits = elim (Bool-cases (id' == id)) [
    | inl same ↦ get-put id' id row t.rows ∙ if_true _ _ _ same ∙ ap some (fits same)
    | inr apart ↦ get-put id' id row t.rows ∙ if_false _ _ _ apart ∙ h
  ]

  claim_row-Holds :
      (id' : ℤ) (q : ℕ) (o : Option InstanceRow)
      → get id' t.rows ≡ o
      → Holds id r (claim_row id' q o t).1
  unfolding claim_row
  claim_row-Holds id' q none e = h
  claim_row-Holds id' q (some row) e =
      either-Holds id r (is_claimable q row) _ (held_by_other (holder_address row.runner_id t), t)
        (λ c. put-Holds id' (held q) (λ same. ap held (
          claimed_by_holder q r
            (subst (λ w. is_claimable q w ≡ true) (row_of_holder id' row e same) c))))
        (λ c. h)

  release_row-Holds :
      (id' : ℤ) (q : ℕ) (o : Option InstanceRow)
      → get id' t.rows ≡ o
      → (id' == id && q == r) ≡ false
      → Holds id r (release_row id' q o t).1
  unfolding release_row
  release_row-Holds id' q none e apart = h
  release_row-Holds id' q (some row) e apart =
      either-Holds id r _ _ (false, t)
        (λ c. put-Holds id' _ (λ same. absurd (
          true≢false (sym (released_by_holder row same (row_of_holder id' row e same) c) ∙ apart))))
        (λ c. h)
    where
      released_by_holder :
          (w : InstanceRow)
          → (id' == id) ≡ true
          → w ≡ held r
          → (w.runner_id == some q && (if is_down w.status then false else true)) ≡ true
          → (id' == id && q == r) ≡ true
      released_by_holder w same e c = rw (same, released_holder q r w e c)

  perform-Holds : (o : Operation) → is_release id r o ≡ false → Holds id r (perform o t)
  unfolding perform register_runner claim_instance release_instance
  perform-Holds (registers name address slots) k = h
  perform-Holds (claims id' q) k = claim_row-Holds id' q (get id' t.rows) refl
  perform-Holds (releases id' q) k = release_row-Holds id' q (get id' t.rows) refl k

perform_all-Holds :
    (id : ℤ) (r : ℕ) (os : List Operation) (t : Instances)
    → Holds id r t
    → All (λ o. is_release id r o ≡ false) os
    → Holds id r (perform_all os t)
unfolding perform_all
perform_all-Holds id r [] t h k = h
perform_all-Holds id r (o ∷ os) t h k =
    perform_all-Holds id r os (perform o t) (perform-Holds id r t h o k.0) k.1

-- What the store says of an instance that a runner holds: the runner has it, and another is refused
-- and gets the address of the holder.
abbrev pub IsRefused : ℤ → ℕ → ℕ → Instances → Type 0
IsRefused id r q t =
    (claim_instance id q t ≡ (held_by_other (holder_address (some r) t), t))
    × (peek_holder id q t ≡ held_by_other (holder_address (some r) t))
    × (peek_holder id r t ≡ said (codes "held_by_self"))

Holds-IsRefused :
    (id : ℤ) (r q : ℕ) (t : Instances) → Holds id r t → (r == q) ≡ false → IsRefused id r q t
unfolding claim_instance peek_holder claim_row peek_row is_claimable option_beq
Holds-IsRefused id r q t h apart = rw h (rw (apart, ==_refl r) (refl, refl, refl))

not_claimed :
    (outcome : Text) → (outcome == codes "claimed") ≡ false → outcome ≡ codes "claimed" → ⊥
not_claimed outcome e h = true≢false (sym ((==-iff_eq outcome (codes "claimed")).1 h) ∙ e)

other_not_claimed : (codes "held_by_other" == codes "claimed") ≡ false
unfolding list_beq codes
other_not_claimed = refl

missing_not_claimed : (codes "missing" == codes "claimed") ≡ false
unfolding list_beq codes
missing_not_claimed = refl

claim_row-claimed :
    (id : ℤ) (r : ℕ) (t : Instances) (o : Option InstanceRow)
    → (claim_row id r o t).0 ≡ said (codes "claimed")
    → Holds id r (claim_row id r o t).1
unfolding claim_row
claim_row-claimed id r t none h = absurd (not_claimed _ missing_not_claimed (ap (λ c. c.outcome) h))
claim_row-claimed id r t (some row) h = either (is_claimable r row) h
  where
    choose : Bool → ClaimResult × Instances
    choose b =
        if b
        then (said (codes "claimed"), with_row id (held r) t)
        else (held_by_other (holder_address row.runner_id t), t)

    either : (b : Bool) → (choose b).0 ≡ said (codes "claimed") → Holds id r (choose b).1
    either true e = get-put id id (held r) t.rows ∙ if_true _ _ _ (==_refl id)
    either false e = absurd (not_claimed _ other_not_claimed (ap (λ c. c.outcome) e))

claim-Holds :
    (id : ℤ) (r : ℕ) (t : Instances)
    → (claim_instance id r t).0 ≡ said (codes "claimed")
    → Holds id r (claim_instance id r t).1
unfolding claim_instance
claim-Holds id r t h = claim_row-claimed id r t (get id t.rows) h

-- Once a runner has claimed an instance, and whatever runners register, claim and release after
-- that, every other runner is refused the instance and told the address of the holder, until the
-- holder releases it itself.
pub claim_instance-IsExclusive :
    (id : ℤ) (r : ℕ) (t : Instances) (os : List Operation) (q : ℕ)
    → (claim_instance id r t).0 ≡ said (codes "claimed")
    → All (λ o. is_release id r o ≡ false) os
    → (r == q) ≡ false
    → IsRefused id r q (perform_all os (claim_instance id r t).1)
claim_instance-IsExclusive id r t os q h k apart =
    Holds-IsRefused id r q _ (perform_all-Holds id r os _ (claim-Holds id r t h) k) apart
