-- ===== src/Security/Blame/Most.antt =====
-- The commit of a finding is the one with the most lines.
use git_agent.Base.{
  Text, Bool, true, false, Option, none, some, List, [], ◌∷◌, ◌≡◌, ◌⊎◌, inl, inr, refl, sym, ap,
  ◌∙◌, subst, ℕ, ◌+◌, ◌≤◌, arith, if◌then◌else◌, contains, All, All-map, Dict, get, get-put, keys,
  keys-put-Distinct, Distinct, or_else, OnSome-holds, bind_some, the_some, nat_eq, list_eq, pair_eq,
  pair_beq, ◌==◌, ==-iff_eq, ◌&&◌, true≢false,
}
use git_agent.Subagents.Registry.{starts_with}
use git_agent.Runner.Terminal.{partition_space}
use git_agent.Security.Blame.{
  Clock, Blame, empty_blame, uncommitted, Candidate, candidates_of, max_from, blame_of,
  chosen_blame, is_header, BlameState, start_state, on_header, blame_keys, on_field, on_other,
  on_line, on_lines, parse_blame_porcelain,
}
use git_agent.Security.Blame.Chosen.{
  Picks, Lists, candidates_of-Lists, max_from-le, max_from-All, counted-le,
}

-- A line that says that the next line of code is of this commit.
abbrev pub names : Clock → Text → Text → Bool
names k sha line =
    if starts_with (9 ∷ []) line
    then false
    else (is_header k line && (partition_space line).0 == sha)

abbrev pub lines_of : Clock → Text → List Text → ℕ
lines_of k sha [] = 0
lines_of k sha (line ∷ lines) = (if names k sha line then 1 else 0) + lines_of k sha lines

abbrev lines_in : Text → Dict Text ℕ → ℕ
lines_in sha d = or_else (get sha d) 0

if-same_table :
    (b : Bool) (s t : BlameState)
    → s.lines_by_commit ≡ t.lines_by_commit
    → (if b then s else t).lines_by_commit ≡ t.lines_by_commit
if-same_table true s t h = h
if-same_table false s t h = refl

lines_in-on_other :
    (current : Option Text) (line : Text) (s : BlameState)
    → (on_other current line s).lines_by_commit ≡ s.lines_by_commit
unfolding on_other on_field
lines_in-on_other none line s = refl
lines_in-on_other (some sha) line s =
    if-same_table (contains (partition_space line).0 blame_keys) _ s refl

lines_in-on_header :
    (sha tha : Text) (s : BlameState)
    → lines_in tha (on_header sha s).lines_by_commit
      ≡ (if sha == tha then 1 else 0) + lines_in tha s.lines_by_commit
unfolding on_header
lines_in-on_header sha tha s =
    ap (λ o. or_else o 0) (get-put sha tha _ s.lines_by_commit) ∙ counted (sha == tha) refl
  where
    counted :
        (b : Bool)
        → (sha == tha) ≡ b
        → or_else
            (if b then some (lines_in sha s.lines_by_commit + 1) else get tha s.lines_by_commit)
            0
          ≡ (if b then 1 else 0) + lines_in tha s.lines_by_commit
    counted true e =
        let same = ap (λ x. lines_in x s.lines_by_commit) ((==-iff_eq sha tha).0 e) in omega arith
    counted false e = omega arith

module _ (P : Dict Text ℕ → Bool → Type 0) (name sha : Text) (s other : BlameState) where
  -- What a line does to the table, in its three cases.
  on_line_cases :
      (is_code heads : Bool)
      → P s.lines_by_commit false
      → P (on_header name s).lines_by_commit (name == sha)
      → P other.lines_by_commit false
      → P
          (if is_code then s else (if heads then on_header name s else other)).lines_by_commit
          (if is_code then false else (heads && name == sha))
  on_line_cases true heads p q r = p
  on_line_cases false true p q r = q
  on_line_cases false false p q r = r

lines_in-on_line :
    (k : Clock) (sha line : Text) (s : BlameState)
    → lines_in sha (on_line k line s).lines_by_commit
      ≡ (if names k sha line then 1 else 0) + lines_in sha s.lines_by_commit
unfolding on_line
lines_in-on_line k sha line s =
    on_line_cases (λ d b. lines_in sha d ≡ (if b then 1 else 0) + lines_in sha s.lines_by_commit)
      (partition_space line).0 sha s (on_other s.current line s) (starts_with (9 ∷ []) line)
      (is_header k line) (omega arith) (lines_in-on_header (partition_space line).0 sha s)
      (ap (lines_in sha) (lines_in-on_other s.current line s) ∙ omega arith)

on_line-Distinct :
    (k : Clock) (line : Text) (s : BlameState)
    → Distinct (keys s.lines_by_commit)
    → Distinct (keys (on_line k line s).lines_by_commit)
unfolding on_line on_header
on_line-Distinct k line s h =
    on_line_cases (λ d b. Distinct (keys d)) (partition_space line).0 [] s
      (on_other s.current line s) (starts_with (9 ∷ []) line) (is_header k line) h
      (keys-put-Distinct (partition_space line).0 _ s.lines_by_commit h)
      (subst (λ d. Distinct (keys d)) (sym (lines_in-on_other s.current line s)) h)

lines_in-on_lines :
    (k : Clock) (sha : Text) (lines : List Text) (s : BlameState)
    → lines_in sha (on_lines k lines s).lines_by_commit
      ≡ lines_of k sha lines + lines_in sha s.lines_by_commit
unfolding on_lines
lines_in-on_lines k sha [] s = omega arith
lines_in-on_lines k sha (line ∷ lines) s =
    let ih = lines_in-on_lines k sha lines (on_line k line s) in
    let here = lines_in-on_line k sha line s in omega arith

lines_by_commit-Distinct :
    (k : Clock) (lines : List Text) (s : BlameState)
    → Distinct (keys s.lines_by_commit)
    → Distinct (keys (on_lines k lines s).lines_by_commit)
unfolding on_lines
lines_by_commit-Distinct k [] s h = h
lines_by_commit-Distinct k (line ∷ lines) s h =
    lines_by_commit-Distinct k lines (on_line k line s) (on_line-Distinct k line s h)

key_of_entry :
    (sha : Text) (n : ℕ) (d : Dict Text ℕ)
    → contains (sha, n) d ≡ true
    → contains sha (keys d) ≡ true
unfolding pair_beq
key_of_entry sha n [] c = c
key_of_entry sha n ((tha, m) ∷ d) c = ground (arith, key_of_entry sha n d)

-- The value of an entry of a dictionary without a key twice is the one that is looked up.
get-of_entry :
    (sha : Text) (n : ℕ) (d : Dict Text ℕ)
    → Distinct (keys d)
    → contains (sha, n) d ≡ true
    → lines_in sha d ≡ n
unfolding get pair_beq
get-of_entry sha n [] h c = absurd (true≢false (sym c))
get-of_entry sha n ((tha, m) ∷ d) h c =
    ground
      (arith, ==-iff_eq tha sha, ==-iff_eq m n, key_of_entry sha n d, get-of_entry sha n d h.1, h.0)

found-le :
    (b : Bool) (o : Option ℕ) (m n : ℕ)
    → (b ≡ true → m ≤ n)
    → or_else o 0 ≤ n
    → or_else (if b then some m else o) 0 ≤ n
found-le true o m n h p = h refl
found-le false o m n h p = p

lines_in-le :
    (tha : Text) (n : ℕ) (d : Dict Text ℕ)
    → (tha == uncommitted) ≡ false
    → All (λ e. ((e.0 == uncommitted) ≡ true) ⊎ (e.1 ≤ n)) d
    → lines_in tha d ≤ n
unfolding get
lines_in-le tha n [] h a = omega arith
lines_in-le tha n ((sha, m) ∷ d) h (inl u, a) =
    found-le (sha == tha) (get tha d) m n
      (λ e. absurd (true≢false (sym u ∙ ap (λ x. x == uncommitted) ((==-iff_eq sha tha).0 e) ∙ h)))
      (lines_in-le tha n d h a)
lines_in-le tha n ((sha, m) ∷ d) h (inr u, a) =
    found-le (sha == tha) (get tha d) m n (λ _. u) (lines_in-le tha n d h a)

-- Either the commit is none and only uncommitted lines are counted, or it is a commit that is
-- counted as often as any.
abbrev pub IsMost : (Text → ℕ) → Option Text → Type 0
IsMost count none = (tha : Text) → (tha == uncommitted) ≡ false → count tha ≡ 0
IsMost count (some sha) =
    (sha == uncommitted) ≡ false
    × ((tha : Text) → (tha == uncommitted) ≡ false → count tha ≤ count sha)

IsMost-ext :
    {f g : Text → ℕ}
    → ((sha : Text) → f sha ≡ g sha)
    → (commit : Option Text) → IsMost f commit
    → IsMost g commit
IsMost-ext e none h = λ tha u. sym (e tha) ∙ h tha u
IsMost-ext e (some sha) (real, h) = (real, λ tha u. rw (← e tha, ← e sha) (h tha u))

chosen_blame-IsMost :
    (k : Clock) (commits : Dict Text (Dict Text Text)) (lines : Dict Text ℕ) (cs : List Candidate)
    → Distinct (keys lines)
    → Lists lines cs
    → IsMost (λ sha. lines_in sha lines) (chosen_blame k commits cs).commit
unfolding chosen_blame blame_of empty_blame
chosen_blame-IsMost k commits lines [] d (p, q) = λ tha h.
    let none_left = lines_in-le tha 0 lines h (All-map lines (λ e i. counted-le 0 [] e tt i) q) in
    omega arith
chosen_blame-IsMost k commits lines (c ∷ cs) d (p, q) =
    let best = max_from c cs in
    let (held, real) = max_from-All (Picks lines) cs c p.0 p.1 in
    let counts = All-map lines (λ e i. counted-le best.0 (c ∷ cs) e (max_from-le cs c) i) q in
    (
      real,
      λ tha h.
          subst (λ n. lines_in tha lines ≤ n) (sym (get-of_entry best.2 best.0 lines d held))
            (lines_in-le tha best.0 lines h counts),
    )

-- If the output can be read, the blame is that of a commit other than the one of uncommitted lines,
-- and no such commit has more header lines in the output, or it is of no commit and the output has
-- no header line of such a commit.
pub parse_blame_porcelain-IsMost :
    (k : Clock) (text : Text) (blame : Blame)
    → parse_blame_porcelain k text ≡ some blame
    → IsMost (λ sha. lines_of k sha (k.splitlines text)) blame.commit
unfolding parse_blame_porcelain start_state get
parse_blame_porcelain-IsMost k text blame h =
    let s = on_lines k (k.splitlines text) start_state in
    let (cs, p, q) = bind_some (candidates_of k s.commits s.lines_by_commit) _ blame h in
    let lists =
      OnSome-holds (Lists s.lines_by_commit) _ cs
        (candidates_of-Lists k s.commits s.lines_by_commit) p in
    let chosen =
      chosen_blame-IsMost k s.commits s.lines_by_commit cs
        (lines_by_commit-Distinct k (k.splitlines text) start_state tt) lists in
    IsMost-ext (λ sha. lines_in-on_lines k sha (k.splitlines text) start_state ∙ omega arith)
      blame.commit
      (subst (λ b. IsMost (λ sha. lines_in sha s.lines_by_commit) b.commit) (the_some q) chosen)
