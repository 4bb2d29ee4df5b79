-- ===== src/Subagents/Steps/Capture.antt =====
-- What the captures keep, whatever states the stream goes through.
use git_agent.Base.{
  Text, Bool, true, false, Option, none, some, List, [], ◌∷◌, ◌++◌, ◌||◌, ◌≡◌, refl, sym, ap, ◌∙◌,
  subst, ℕ, zero, suc, ◌+◌, ltb, if◌then◌else◌, length, length-append, take, drop, contains,
  is_some, get_last?, nat_eq, list_eq, option_eq, ==_refl, Distinct, All, All-append, OnSome,
  if_true, if_false, Bool-cases, inl, inr, append_assoc, append-nil, arith, ◌≤◌,
}
use git_agent.Message.{Message, ai, tool, human, system}
use git_agent.Subagents.Steps.{Step, step_eq, Captured, add_step}

-- The message has an id, if it is one that is captured.
abbrev pub HasId : Message → Type 0
HasId (ai m) = is_some m.id ≡ true
HasId (tool m) = is_some m.id ≡ true
HasId (human m) = Unit
HasId (system m) = Unit

-- The id of a step is among those that were seen.
abbrev pub IsSeenId : Captured → Option Text → Type 0
IsSeenId c none = ⊥
IsSeenId c (some id) = contains id c.seen_ids ≡ true

-- The message is one that is not captured, or its id was seen.
abbrev pub IsSeen : Captured → Message → Type 0
IsSeen c (ai m) = IsSeenId c m.id
IsSeen c (tool m) = IsSeenId c m.id
IsSeen c (human m) = Unit
IsSeen c (system m) = Unit

-- `d` comes after `c`: its steps are those of `c` and behind them one for each id that is new, which
-- has `P`; its ids are distinct if those of `c` are, and those of `c` are among them.
abbrev pub Extends : (Step → Type 0) → Captured → Captured → Type 0
Extends P c d =
    ((new : List Step) × (c.steps ++ new ≡ d.steps)
      × (length new + length c.seen_ids ≡ length d.seen_ids)
      × All P new)
    × (Distinct c.seen_ids → Distinct d.seen_ids)
    × ((id : Text) → contains id c.seen_ids ≡ true → contains id d.seen_ids ≡ true)

pub Extends-refl : (P : Step → Type 0) (c : Captured) → Extends P c c
Extends-refl P c = (([], append-nil c.steps, omega arith, tt), (λ h. h), λ id h. h)

pub Extends-trans :
    (P : Step → Type 0) (c d e : Captured) → Extends P c d → Extends P d e → Extends P c e
Extends-trans P c d e ((new, e1, n1, a1), d1, s1) ((new', e2, n2, a2), d2, s2) = (
  (
    new ++ new',
    sym (append_assoc c.steps new new') ∙ ap (λ xs. xs ++ new') e1 ∙ e2,
    omega (arith, n1, n2, length-append new new'),
    All-append P new new' a1 a2,
  ),
  (λ h. d2 (d1 h)),
  λ id h. s2 id (s1 id h),
)

either-Extends :
    (P : Step → Type 0) (c d : Captured) (b : Bool)
    → (b ≡ false → Extends P c d)
    → Extends P c (if b then c else d)
either-Extends P c d true h = Extends-refl P c
either-Extends P c d false h = h refl

add_step-Extends :
    (P : Step → Type 0) (s : Step) (id : Text) (c : Captured)
    → P s
    → Extends P c (add_step s (some id) c)
unfolding add_step
add_step-Extends P s id c holds =
    either-Extends P c _ (contains id c.seen_ids)
      (λ n. ((s ∷ [], refl, omega arith, (holds, tt)), (λ h. (n, h)), λ i h. or_true _ h))
  where
    or_true : {b : Bool} (a : Bool) → b ≡ true → (a || b) ≡ true
    or_true a h = ground (arith, h)

-- The id of a step is seen after it, and a step whose id is seen changes nothing.
add_step-IsSeenId :
    (s : Step) (id : Text) (c : Captured) → contains id (add_step s (some id) c).seen_ids ≡ true
unfolding add_step
add_step-IsSeenId s id c = elim (Bool-cases (contains id c.seen_ids)) [
  | inl p ↦ subst (λ d. contains id d.seen_ids ≡ true) (sym (if_true _ c _ p)) p
  | inr q ↦
      subst (λ d. contains id d.seen_ids ≡ true) (sym (if_false _ c _ q)) (rw (==_refl id) refl)
]

pub add_step-seen : (s : Step) (o : Option Text) (c : Captured) → IsSeenId c o → add_step s o c ≡ c
unfolding add_step
add_step-seen s none c h = absurd h
add_step-seen s (some id) c h = if_true _ c _ h

pub drop_own : (xs ys : List Step) → drop (length xs) (xs ++ ys) ≡ ys
drop_own [] ys = refl
drop_own (x ∷ xs) ys = drop_own xs ys

IsSeenId-Extends :
    (P : Step → Type 0) (c d : Captured) (o : Option Text)
    → Extends P c d
    → IsSeenId c o
    → IsSeenId d o
IsSeenId-Extends P c d none e h = h
IsSeenId-Extends P c d (some id) e h = e.2 id h

pub IsSeen-Extends :
    (P : Step → Type 0) (c d : Captured) (m : Message) → Extends P c d → IsSeen c m → IsSeen d m
IsSeen-Extends P c d (ai m) e h = IsSeenId-Extends P c d m.id e h
IsSeen-Extends P c d (tool m) e h = IsSeenId-Extends P c d m.id e h
IsSeen-Extends P c d (human m) e h = tt
IsSeen-Extends P c d (system m) e h = tt

pub All-IsSeen-Extends :
    (P : Step → Type 0) (c d : Captured) (ms : List Message)
    → Extends P c d
    → All (IsSeen c) ms
    → All (IsSeen d) ms
All-IsSeen-Extends P c d [] e h = tt
All-IsSeen-Extends P c d (m ∷ ms) e h =
    (IsSeen-Extends P c d m e h.0, All-IsSeen-Extends P c d ms e h.1)

pub last-All : (P : Message → Type 0) (ms : List Message) → All P ms → OnSome P (get_last? ms)
last-All P [] h = tt
last-All P (m ∷ []) h = h.0
last-All P (m ∷ n ∷ ms) h = last-All P (n ∷ ms) h.1

pub take_all : (n : ℕ) (ms : List Message) → length ms ≤ n → take n ms ≡ ms
take_all zero [] h = refl
take_all zero (m ∷ ms) h = absurd (omega (arith, h))
take_all (suc n) [] h = refl
take_all (suc n) (m ∷ ms) h = ap (λ xs. m ∷ xs) (take_all n ms (omega (arith, h)))

pub drop_all : (xs : List Step) → drop (length xs) xs ≡ []
drop_all [] = refl
drop_all (x ∷ xs) = drop_all xs

pub not_ltb : (a b : ℕ) → ltb a b ≡ false → b ≤ a
not_ltb a b h = ground (arith, h)

-- Where the loop starts: at the cursor, or at the front if the history has become shorter.
abbrev pub start : List Message → ℕ → ℕ
start messages processed_count =
    if ltb (length messages) processed_count then 0 else processed_count

-- What a step with an id does.
pub captures :
    (P : Step → Type 0) (s : Step) (o : Option Text) (c : Captured)
    → is_some o ≡ true
    → P s
    → Extends P c (add_step s o c) × IsSeenId (add_step s o c) o
captures P s none c h holds = cc
captures P s (some id) c h holds = (add_step-Extends P s id c holds, add_step-IsSeenId s id c)
