-- ===== src/Runner/Terminal/RoundTrip.antt =====
-- The output of a wrapped command, read back.
use git_agent.Base.{
  Text, codes, Bool, true, false, none, some, [], ◌∷◌, ◌++◌, ◌≡◌, refl, ap, ◌∙◌, ℕ, zero, suc, ◌+◌,
  ◌/◌, ◌%◌, ◌<◌, arith, if◌then◌else◌, if_true, if_false, length, drop, all_by, not, show,
  show_fuel, pos, nat_eq, ◌==◌, ==_refl, &&-eq_true, ==_comm_false, ltb→lt, ltb,
}
use git_agent.Subagents.Registry.{starts_with}
use git_agent.Runner.Terminal.{
  Shell, terminal_marker, separator, found_or, rpartition, partition_space, given_text, with_code,
  parse_tail, parse_found, parse_terminal_output,
}

-- No character of the text is `c`.
abbrev pub lacks : ℕ → Text → Bool
lacks c s = all_by (λ d. not (c == d)) s

false_of_not : (b : Bool) → not b ≡ true → b ≡ false
false_of_not true h = cc
false_of_not false h = refl

rpartition-lacks : (c : ℕ) (sep s : Text) → lacks c s ≡ true → rpartition (c ∷ sep) s ≡ none
unfolding rpartition found_or starts_with
rpartition-lacks c sep [] h = refl
rpartition-lacks c sep (d ∷ s) h =
    let (p, q) = &&-eq_true (not (c == d)) (lacks c s) h in
    rw (rpartition-lacks c sep s q, false_of_not (c == d) p)

starts_with-append : (p s : Text) → starts_with p (p ++ s) ≡ true
unfolding starts_with
starts_with-append [] s = refl
starts_with-append (c ∷ p) s = rw (==_refl c) (starts_with-append p s)

drop-length_append : (p s : Text) → drop (length p) (p ++ s) ≡ s
drop-length_append [] s = refl
drop-length_append (c ∷ p) s = drop-length_append p s

-- The last separator, if its first character is not in what follows.
rpartition-append :
    (c : ℕ) (sep head tail : Text)
    → lacks c (sep ++ tail) ≡ true
    → rpartition (c ∷ sep) (head ++ (c ∷ (sep ++ tail))) ≡ some (head, tail)
unfolding rpartition found_or
rpartition-append c sep [] tail h = rw (rpartition-lacks c sep (sep ++ tail) h) (
    if_true _ _ _ (starts_with-append (c ∷ sep) tail)
    ∙ ap (λ t. some ([], t)) (drop-length_append (c ∷ sep) tail))
rpartition-append c sep (d ∷ head) tail h =
    let rest = head ++ (c ∷ (sep ++ tail)) in
    ap (λ o. found_or o (starts_with (c ∷ sep) (d ∷ rest)) d rest (c ∷ sep))
      (rpartition-append c sep head tail h)

partition_space-append :
    (code cwd : Text) → lacks 32 code ≡ true → partition_space (code ++ (32 ∷ cwd)) ≡ (code, cwd)
unfolding partition_space
partition_space-append [] cwd h = refl
partition_space-append (c ∷ code) cwd h =
    let (p, q) = &&-eq_true (not (32 == c)) (lacks 32 code) h in
    if_false _ _ _ (==_comm_false 32 c (false_of_not (32 == c) p))
    ∙ ap (λ r. (c ∷ r.0, r.1)) (partition_space-append code cwd q)

-- A digit is neither a space nor a newline.
digit_is_other : (c n : ℕ) → c < 48 → n < 10 → not (c == 48 + n) ≡ true
digit_is_other c n h k = ground arith

lacks-append : (c : ℕ) (s t : Text) → lacks c s ≡ true → lacks c t ≡ true → lacks c (s ++ t) ≡ true
lacks-append c [] t h k = k
lacks-append c (d ∷ s) t h k =
    let (p, q) = &&-eq_true (not (c == d)) (lacks c s) h in rw p (lacks-append c s t q k)

lacks-show_fuel : (c f n : ℕ) → c < 48 → lacks c (show_fuel f n) ≡ true
unfolding show_fuel
lacks-show_fuel c zero n h = refl
lacks-show_fuel c (suc f) n h =
    either (ltb n 10) _ _ (λ e. one n (ltb→lt n 10 e))
      (lacks-append c (show_fuel f (n / 10)) _ (lacks-show_fuel c f (n / 10) h)
        (one (n % 10) (omega arith)))
  where
    one : (d : ℕ) → d < 10 → lacks c ((48 + d) ∷ []) ≡ true
    one d k = rw (digit_is_other c d h k)

    either :
        (b : Bool) (x y : Text)
        → (b ≡ true → lacks c x ≡ true)
        → lacks c y ≡ true
        → lacks c (if b then x else y) ≡ true
    either true x y hx hy = hx refl
    either false x y hx hy = hy

lacks-terminal_marker : lacks 10 (terminal_marker ++ (32 ∷ [])) ≡ true
unfolding terminal_marker codes
lacks-terminal_marker = refl

lacks-show : (c n : ℕ) → c < 48 → lacks c (show n) ≡ true
unfolding show
lacks-show c n h = lacks-show_fuel c (suc n) n h

-- Whatever a command prints, a marker of its own included, the output that the wrapped command ends
-- with its exit code and working directory is read back as the output, the code and the directory.
-- The code is read as it is shown, and the directory has no newline.
pub parse_terminal_output-append :
    (sh : Shell) (output cwd : Text) (code : ℕ)
    → sh.int_of (show code) ≡ some (pos code)
    → lacks 10 cwd ≡ true
    → parse_terminal_output sh (output ++ (separator ++ (show code ++ (32 ∷ cwd))))
      ≡ (output, some (pos code), given_text cwd)
unfolding parse_terminal_output parse_found parse_tail with_code separator
parse_terminal_output-append sh output cwd code read h =
    let raw = output ++ (separator ++ (show code ++ (32 ∷ cwd))) in
    let tail = show code ++ (32 ∷ cwd) in
    let plain =
      lacks-append 10 (terminal_marker ++ (32 ∷ [])) tail lacks-terminal_marker
        (lacks-append 10 (show code) (32 ∷ cwd) (lacks-show 10 code (omega arith)) h) in
    ap (parse_found sh raw) (rpartition-append 10 (terminal_marker ++ (32 ∷ [])) output tail plain)
    ∙ ap (λ r. with_code raw output r.1 (sh.int_of r.0))
        (partition_space-append (show code) cwd (lacks-show 32 code (omega arith)))
    ∙ ap (with_code raw output cwd) read
