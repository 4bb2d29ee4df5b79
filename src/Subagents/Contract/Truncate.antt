-- ===== src/Subagents/Contract/Truncate.antt =====
-- The shortened texts of the metadata.
use git_agent.Base.{
  Text, codes, false, [], ◌∷◌, ◌++◌, ◌≡◌, refl, ℕ, ◌+◌, ◌-◌, ◌*◌, ◌/◌, ◌≤◌, ◌<◌, min, leb, le→leb,
  lt→ltb, leb→le, length, take, length-append, length-take, length-drop, Bool-cases, inl, inr,
  arith, if_true, true≢false, is_nil,
}
use git_agent.Subagents.Contract.{truncate_head_tail, last_chars}

length-last_chars :
    (a b : ℕ) (text : Text) → b < a → a ≤ length text + b → length (last_chars a b text) ≡ a - b
unfolding last_chars
length-last_chars a b text h k =
    rw (lt→ltb b a h) (omega (arith, length-drop (length text - (a - b)) text, k))

gap : length (codes "\n...\n") ≡ 5
unfolding codes
gap = refl

leb-false : (m : ℕ) (text : Text) → leb (length text) m ≡ false → m < length text
leb-false m text h = ground arith

length_of_long :
    (m head : ℕ) (text : Text)
    → 18 ≤ m
    → head + 5 < m
    → m < length text
    → length (take head text ++ codes "\n...\n" ++ last_chars m (head + 5) text)
      ≡ min m (length text)
length_of_long m head text h room long = omega (
  arith,
  length-append (take head text) (codes "\n...\n"),
  length-append (take head text ++ codes "\n...\n") (last_chars m (head + 5) text),
  gap,
  length-take head text,
  length-last_chars m (head + 5) text room (omega (arith, long)),
  room,
  long,
)

-- A text is never longer than the limit once it is shortened, and as long as the limit allows, for
-- any limit of at least 18 characters, of which the gap takes 5.
pub length-truncate_head_tail :
    (max_chars : ℕ) (text : Text)
    → 18 ≤ max_chars
    → length (truncate_head_tail max_chars text) ≡ min max_chars (length text)
unfolding truncate_head_tail
length-truncate_head_tail m text h = elim (Bool-cases (leb (length text) m)) [
  | inl fits ↦ rw fits (omega (arith, leb→le (length text) m fits))
  | inr over ↦ rw over (length_of_long m (m * 2 / 3) text h (omega arith) (leb-false m text over))
]

truncate_short : (m : ℕ) (text : Text) → length text ≤ m → truncate_head_tail m text ≡ text
unfolding truncate_head_tail
truncate_short m text h = if_true (leb (length text) m) _ _ (le→leb (length text) m h)

some_chars : (text : Text) → is_nil text ≡ false → 0 < length text
some_chars [] h = absurd (true≢false h)
some_chars (c ∷ cs) h = omega arith

not_nil : (text : Text) → 0 < length text → is_nil text ≡ false
not_nil [] h = absurd (omega (arith, h))
not_nil (c ∷ cs) h = refl

-- Shortening a shortened text changes nothing.
pub truncate_head_tail_idem :
    (max_chars : ℕ) (text : Text)
    → 18 ≤ max_chars
    → truncate_head_tail max_chars (truncate_head_tail max_chars text)
      ≡ truncate_head_tail max_chars text
truncate_head_tail_idem m text h =
    truncate_short m (truncate_head_tail m text) (omega (arith, length-truncate_head_tail m text h))

-- What is not empty stays so.
pub truncate_head_tail_given :
    (max_chars : ℕ) (text : Text)
    → 18 ≤ max_chars
    → is_nil text ≡ false
    → is_nil (truncate_head_tail max_chars text) ≡ false
truncate_head_tail_given m text h given =
    not_nil (truncate_head_tail m text)
      (omega (arith, length-truncate_head_tail m text h, some_chars text given))
