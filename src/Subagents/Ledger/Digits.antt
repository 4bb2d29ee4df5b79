-- ===== src/Subagents/Ledger/Digits.antt =====
-- The number in a receipt id.
use git_agent.Base.{
  Text, codes, Bool, true, false, some, [], ◌∷◌, ◌++◌, ◌≡◌, refl, ap, sym, ◌∙◌, ℕ, zero, suc, ◌+◌,
  ◌-◌, ◌*◌, ◌/◌, ◌%◌, ◌≤◌, ◌<◌, ◌&&◌, arith, ltb, leb, all_by, show, show_fuel, if◌then◌else◌,
  nat_eq, ltb→lt, lt→ltb, subst, true≢false, &&-eq_true,
}
use git_agent.Subagents.Citations.{receipt_id}
use git_agent.Subagents.Ledger.{is_digit, number_from, position_of}

-- A digit from 1 on comes first.
abbrev is_led : Text → Bool
is_led [] = false
is_led (c ∷ s) = leb 49 c && leb c 57

-- `s` writes `n` in decimal, without a leading zero.
abbrev IsNumeral : ℕ → Text → Type 0
IsNumeral n s = (number_from 0 s ≡ n) × (all_by is_digit s ≡ true) × (is_led s ≡ true)

number_from-append :
    (n c : ℕ) (s : Text) → number_from n (s ++ (c ∷ [])) ≡ number_from n s * 10 + (c - 48)
unfolding number_from
number_from-append n c [] = refl
number_from-append n c (d ∷ s) = number_from-append (n * 10 + (d - 48)) c s

is_digit-add : (n : ℕ) → n < 10 → is_digit (48 + n) ≡ true
unfolding is_digit
is_digit-add n h = ground arith

all_by-append_digit :
    (s : Text) (d : ℕ)
    → d < 10
    → all_by is_digit s ≡ true
    → all_by is_digit (s ++ ((48 + d) ∷ [])) ≡ true
all_by-append_digit [] d h e = rw (is_digit-add d h)
all_by-append_digit (c ∷ s) d h e = ground (arith, all_by-append_digit s d h)

is_led-append : (s t : Text) → is_led s ≡ true → is_led (s ++ t) ≡ true
is_led-append [] t h = cc
is_led-append (c ∷ s) t h = h

IsNumeral-one : (n : ℕ) → 1 ≤ n → n < 10 → IsNumeral n ((48 + n) ∷ [])
unfolding number_from
IsNumeral-one n p h = (omega arith, rw (is_digit-add n h), ground arith)

IsNumeral-append :
    (n d : ℕ) (s : Text) → d < 10 → IsNumeral n s → IsNumeral (n * 10 + d) (s ++ ((48 + d) ∷ []))
IsNumeral-append n d s h (v, ds, l) = (
  number_from-append 0 (48 + d) s ∙ omega (arith, v),
  all_by-append_digit s d h ds,
  is_led-append s _ l,
)

either-IsNumeral :
    (b : Bool) (n : ℕ) (x y : Text)
    → (b ≡ true → IsNumeral n x)
    → (b ≡ false → IsNumeral n y)
    → IsNumeral n (if b then x else y)
either-IsNumeral true n x y hx hy = hx refl
either-IsNumeral false n x y hx hy = hy refl

show_fuel-IsNumeral : (f n : ℕ) → 1 ≤ n → n < f → IsNumeral n (show_fuel f n)
unfolding show_fuel
show_fuel-IsNumeral zero n p h = absurd (omega arith)
show_fuel-IsNumeral (suc f) n p h =
    either-IsNumeral (ltb n 10) n _ _ (λ e. IsNumeral-one n p (ltb→lt n 10 e))
      (λ e.
        let big : 10 ≤ n = ground (arith, lt→ltb n 10, e) in
        subst (λ m. IsNumeral m (show_fuel f (n / 10) ++ ((48 + n % 10) ∷ []))) (omega arith)
          (IsNumeral-append (n / 10) (n % 10) _ (omega arith)
            (show_fuel-IsNumeral f (n / 10) (omega (arith, big)) (omega (arith, big)))))

-- `str` writes a positive number as a numeral: the fuel is enough for all its digits.
pub show-IsNumeral : (n : ℕ) → 1 ≤ n → IsNumeral n (show n)
unfolding show
show-IsNumeral n p = show_fuel-IsNumeral (suc n) n p (omega arith)

position_of-numeral : (s : Text) (n : ℕ) → IsNumeral n s → position_of (114 ∷ s) ≡ some n
unfolding position_of
position_of-numeral [] n h = absurd (true≢false (sym h.2))
position_of-numeral (c ∷ s) n h =
    let digits = (&&-eq_true (is_digit c) (all_by is_digit s) h.1).1 in
    let lead = &&-eq_true (leb 49 c) (leb c 57) h.2 in rw (lead.0, lead.1, digits) (ap some h.0)

-- The number of a receipt id is the position that it was made from.
pub position_of-receipt_id : (n : ℕ) → 1 ≤ n → position_of (receipt_id n) ≡ some n
unfolding receipt_id codes
position_of-receipt_id n p = position_of-numeral (show n) n (show-IsNumeral n p)
