-- ===== src/Security/Report/Cells.antt =====
-- The cells of the table of findings.
use git_agent.Base.{
  Text, Bool, true, false, [], ◌∷◌, ◌++◌, reverse, ◌≡◌, refl, sym, ap, ◌∙◌, subst, inl, inr, ℕ,
  ◌&&◌, All, is_space, lstrip, rstrip, strip, if◌then◌else◌, if_true, if_false, Bool-cases, nat_eq,
  ◌==◌, ==-iff_eq, true≢false, &&-eq_true, arith,
}
use mathlib.Core.List.{reverse-append, reverse-reverse}
use git_agent.Security.Report.{Reported}
use git_agent.Security.Report.Render.{md_char, md_chars, md, cells}

-- No newline stands in the text, and each `|` stands right behind a backslash; `escaped` says whether
-- the character before the text is one.
abbrev pub is_cell : Bool → Text → Bool
is_cell escaped [] = true
is_cell escaped (c ∷ s) =
    (if c == 10 then false else (if c == 124 then escaped else true)) && is_cell (c == 92) s

md_char-is_cell :
    (b : Bool) (c : ℕ) (s : Text)
    → ((e : Bool) → is_cell e s ≡ true)
    → is_cell b (md_char c ++ s) ≡ true
unfolding md_char
md_char-is_cell b c s h = elim (Bool-cases (c == 124)) [
  | inl p ↦ rw p (h _)
  | inr p ↦ elim (Bool-cases (c == 10)) [
    | inl q ↦ rw (p, q) (h _)
    | inr q ↦ rw (p, q) (rw (p, q) (h (c == 92)))
  ]
]

md_chars-is_cell : (b : Bool) (s : Text) → is_cell b (md_chars s) ≡ true
unfolding md_chars
md_chars-is_cell b [] = refl
md_chars-is_cell b (c ∷ s) = md_char-is_cell b c (md_chars s) (λ e. md_chars-is_cell e s)

-- A beginning of a cell is a cell.
is_cell-prefix : (b : Bool) (s t : Text) → is_cell b (s ++ t) ≡ true → is_cell b s ≡ true
is_cell-prefix b [] t h = refl
is_cell-prefix b (c ∷ s) t h = ground (arith, is_cell-prefix (c == 92) s t)

is_cell-escaped : (b : Bool) (s : Text) → is_cell false s ≡ true → is_cell b s ≡ true
is_cell-escaped b [] h = refl
is_cell-escaped b (c ∷ s) h = ground arith

space_is_no_backslash : (c : ℕ) → is_space c ≡ true → (c == 92) ≡ false
unfolding is_space
space_is_no_backslash c h = elim (Bool-cases (c == 92)) [
  | inl e ↦ absurd (true≢false (sym (subst (λ d. is_space d ≡ true) ((==-iff_eq c 92).0 e) h)))
  | inr e ↦ e
]

lstrip-is_cell : (b : Bool) (s : Text) → is_cell b s ≡ true → is_cell b (lstrip s) ≡ true
unfolding lstrip
lstrip-is_cell b [] h = refl
lstrip-is_cell b (c ∷ s) h = elim (Bool-cases (is_space c)) [
  | inl e ↦
      let rest : is_cell false s ≡ true =
        subst (λ d. is_cell d s ≡ true) (space_is_no_backslash c e) (&&-eq_true _ _ h).1 in
      subst (λ t. is_cell b t ≡ true) (sym (if_true _ (lstrip s) (c ∷ s) e))
        (lstrip-is_cell b s (is_cell-escaped b s rest))
  | inr e ↦ subst (λ t. is_cell b t ≡ true) (sym (if_false _ (lstrip s) (c ∷ s) e)) h
]

-- What is stripped on the right is the end of the text.
lstrip-suffix : (s : Text) → (w : Text) × (s ≡ w ++ lstrip s)
unfolding lstrip
lstrip-suffix [] = ([], refl)
lstrip-suffix (c ∷ s) =
    let (w, e) = lstrip-suffix s in
    elim (Bool-cases (is_space c)) [
      | inl p ↦
          (c ∷ w, ap (λ t. c ∷ t) e ∙ ap (λ t. c ∷ w ++ t) (sym (if_true _ (lstrip s) (c ∷ s) p)))
      | inr p ↦ ([], sym (if_false _ (lstrip s) (c ∷ s) p))
    ]

rstrip-prefix : (s : Text) → (w : Text) × (s ≡ rstrip s ++ w)
unfolding rstrip
rstrip-prefix s =
    let (w, e) = lstrip-suffix (reverse s) in
    (reverse w, sym (reverse-reverse s) ∙ ap reverse e ∙ reverse-append w (lstrip (reverse s)))

md-is_cell : (s : Text) → is_cell false (md s) ≡ true
unfolding md strip
md-is_cell s =
    let t = lstrip (md_chars s) in
    let (w, e) = rstrip-prefix t in
    is_cell-prefix false (rstrip t) w (
      subst (λ u. is_cell false u ≡ true) e
        (lstrip-is_cell false (md_chars s) (md_chars-is_cell false s)))

-- In no cell of a finding, whatever its texts are, stands a newline, or a `|` that is not right behind
-- a backslash.
pub cells-All-is_cell : (r : Reported) → All (λ c. is_cell false c ≡ true) (cells r)
unfolding cells
cells-All-is_cell r = (
  md-is_cell _,
  (md-is_cell _, (md-is_cell _, (md-is_cell _, (md-is_cell _, (md-is_cell _, tt))))),
)
