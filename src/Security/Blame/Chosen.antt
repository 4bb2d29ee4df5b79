-- ===== src/Security/Blame/Chosen.antt =====
-- The candidates for the commit of a finding, and the greatest of them.
use git_agent.Base.{
  Text, Bool, true, false, Option, none, some, List, [], ◌∷◌, ◌≡◌, ◌⊎◌, inl, inr, refl, sym, ap,
  ◌∙◌, subst, ℕ, ◌≤◌, arith, ltb, if◌then◌else◌, map, contains, All, All-map, Dict, ◌>>=◌, OnSome,
  OnSome-bind, OnSome-holds, Bool-cases, nat_eq, list_eq, pair_eq, ◌==◌, ==-iff_eq, ==_refl, ◌||◌,
  ◌&&◌, true≢false,
}
use git_agent.Security.Blame.{
  Clock, uncommitted, Candidate, author_time, candidates_of, candidate_leb, max_from,
}

-- A candidate stands for a line of the table, of a commit.
abbrev pub Picks : Dict Text ℕ → Candidate → Type 0
Picks lines c = (contains (c.2, c.0) lines ≡ true) × ((c.2 == uncommitted) ≡ false)

-- A line of the table is of no commit, or its count is among the candidates'.
abbrev pub IsCounted : List Candidate → Text × ℕ → Type 0
IsCounted cs e = ((e.0 == uncommitted) ≡ true) ⊎ (contains e.1 (map (λ c. c.0) cs) ≡ true)

abbrev pub Lists : Dict Text ℕ → List Candidate → Type 0
Lists lines cs = All (Picks lines) cs × All (IsCounted cs) lines

head_is_in : (e : Text × ℕ) (xs : Dict Text ℕ) → contains e (e ∷ xs) ≡ true
head_is_in e xs = rw (==_refl e)

head_count_is_in : (n : ℕ) (ns : List ℕ) → contains n (n ∷ ns) ≡ true
head_count_is_in n ns = rw (==_refl n)

contains-cons :
    (a b : Text × ℕ) (xs : Dict Text ℕ) → contains a xs ≡ true → contains a (b ∷ xs) ≡ true
contains-cons a b xs h = ground (arith, h)

Picks-cons :
    (e : Text × ℕ) (lines : Dict Text ℕ) (cs : List Candidate)
    → All (Picks lines) cs
    → All (Picks (e ∷ lines)) cs
Picks-cons e lines cs h = All-map cs (λ c p. (contains-cons (c.2, c.0) e lines p.0, p.1)) h

IsCounted-cons :
    (c : Candidate) (cs : List Candidate) (e : Text × ℕ) → IsCounted cs e → IsCounted (c ∷ cs) e
IsCounted-cons c cs e (inl h) = inl h
IsCounted-cons c cs e (inr h) = inr (ground (arith, h))

Lists-cons :
    (sha : Text) (n t : ℕ) (lines : Dict Text ℕ) (cs : List Candidate)
    → (sha == uncommitted) ≡ false
    → Lists lines cs
    → Lists ((sha, n) ∷ lines) ((n, t, sha) ∷ cs)
Lists-cons sha n t lines cs e (p, q) = (
  ((head_is_in (sha, n) lines, e), Picks-cons (sha, n) lines cs p),
  (inr (head_count_is_in n _), All-map lines (IsCounted-cons (n, t, sha) cs) q),
)

OnSome-map :
    {P Q : List Candidate → Type 0} (o : Option (List Candidate))
    → ((cs : List Candidate) → P cs → Q cs)
    → OnSome P o
    → OnSome Q o
OnSome-map none f h = tt
OnSome-map (some cs) f h = f cs h

one_more :
    (sha : Text) (n : ℕ) (lines : Dict Text ℕ) (time : Option ℕ) (others : Option (List Candidate))
    (b : Bool)
    → (sha == uncommitted) ≡ b
    → OnSome (Lists lines) others
    → OnSome
        (Lists ((sha, n) ∷ lines))
        (if b then others else (time >>= λ t. others >>= λ cs. some ((n, t, sha) ∷ cs)))
one_more sha n lines time others true e ih =
    OnSome-map others (λ cs (p, q). (Picks-cons (sha, n) lines cs p, (inl e, q))) ih
one_more sha n lines time others false e ih = OnSome-bind _ time _ (λ t _.
    OnSome-bind _ others _
      (λ cs r. Lists-cons sha n t lines cs e (OnSome-holds (Lists lines) others cs ih r)))

pub candidates_of-Lists :
    (k : Clock) (commits : Dict Text (Dict Text Text)) (lines : Dict Text ℕ)
    → OnSome (Lists lines) (candidates_of k commits lines)
unfolding candidates_of
candidates_of-Lists k commits [] = (tt, tt)
candidates_of-Lists k commits ((sha, n) ∷ lines) =
    one_more sha n lines (author_time k commits sha) (candidates_of k commits lines)
      (sha == uncommitted) refl (candidates_of-Lists k commits lines)

lines_first : (n m : ℕ) (b : Bool) → (ltb n m || (n == m && b)) ≡ true → n ≤ m
lines_first n m b h = ground (arith, ==-iff_eq n m)

not_lines_first : (n m : ℕ) (b : Bool) → (ltb n m || (n == m && b)) ≡ false → m ≤ n
not_lines_first n m b h = ground (arith, ==-iff_eq n m)

leb-lines : (c best : Candidate) → candidate_leb c best ≡ true → c.0 ≤ best.0
unfolding candidate_leb
leb-lines (n, t, sha) (m, u, tha) h = lines_first n m _ h

not_leb-lines : (c best : Candidate) → candidate_leb c best ≡ false → best.0 ≤ c.0
unfolding candidate_leb
not_leb-lines (n, t, sha) (m, u, tha) h = not_lines_first n m _ h

-- Of the two, the one that is kept has at least the lines of each.
kept-le :
    (c best : Candidate)
    → let kept = if candidate_leb c best then best else c in (best.0 ≤ kept.0) × (c.0 ≤ kept.0)
kept-le c best = either (candidate_leb c best) refl
  where
    either :
        (b : Bool)
        → candidate_leb c best ≡ b
        → let kept = if◌then◌else◌ {A = Candidate} b best c in (best.0 ≤ kept.0) × (c.0 ≤ kept.0)
    either true e = (omega arith, leb-lines c best e)
    either false e = (not_leb-lines c best e, omega arith)

pub max_from-le :
    (cs : List Candidate) (best : Candidate)
    → (best.0 ≤ (max_from best cs).0) × All (λ c. c.0 ≤ (max_from best cs).0) cs
unfolding max_from
max_from-le [] best = (omega arith, tt)
max_from-le (c ∷ cs) best =
    let kept = if candidate_leb c best then best else c in
    let (p, q) = kept-le c best in
    let (r, rs) = max_from-le cs kept in (omega arith, (omega arith, rs))

module _ (P : Candidate → Type 0) where
  pub max_from-All :
      (cs : List Candidate) (best : Candidate) → P best → All P cs → P (max_from best cs)
  unfolding max_from
  max_from-All [] best p ps = p
  max_from-All (c ∷ cs) best p ps =
      max_from-All cs (if candidate_leb c best then best else c) (either (candidate_leb c best))
        ps.1
    where
      either : (b : Bool) → P (if◌then◌else◌ {A = Candidate} b best c)
      either true = p
      either false = ps.0

pub counted-le :
    (n : ℕ) (cs : List Candidate) (e : Text × ℕ)
    → All (λ c. c.0 ≤ n) cs
    → IsCounted cs e
    → ((e.0 == uncommitted) ≡ true) ⊎ (e.1 ≤ n)
counted-le n cs e h (inl q) = inl q
counted-le n cs e h (inr q) = inr (among cs h q)
  where
    among :
        (ds : List Candidate)
        → All (λ c. c.0 ≤ n) ds
        → contains e.1 (map (λ c. c.0) ds) ≡ true
        → e.1 ≤ n
    among [] g r = absurd (true≢false (sym r))
    among (d ∷ ds) g r = elim (Bool-cases (d.0 == e.1)) [
      | inl w ↦ subst (λ x. x ≤ n) ((==-iff_eq d.0 e.1).0 w) g.0
      | inr w ↦ among ds g.1 (sym (ap (λ b. b || contains e.1 (map (λ c. c.0) ds)) w) ∙ r)
    ]
