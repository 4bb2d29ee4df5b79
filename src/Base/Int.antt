-- ===== src/Base/Int.antt =====
-- Signed integers. `negsuc n` is -(n + 1).
use Prim.Native.Nat.{ℕ, suc, ◌+◌, ◌-◌}
use mathlib.Core.Path.{◌≡◌, refl, ap}
use mathlib.Core.Bool.{Bool, true, false}
use git_agent.Base.Tests.{nat_beq, nat_beq_iff, leb, if◌then◌else◌}
use git_agent.Base.Equality.{HasEq}

pub data ℤ : Type 0 where
  pos : ℕ → ℤ
  negsuc : ℕ → ℤ

abbrev pub int_beq : ℤ → ℤ → Bool
int_beq (pos a) (pos b) = nat_beq a b
int_beq (pos a) (negsuc b) = false
int_beq (negsuc a) (pos b) = false
int_beq (negsuc a) (negsuc b) = nat_beq a b

pub int_beq_sound : (a b : ℤ) → int_beq a b ≡ true → a ≡ b
int_beq_sound (pos a) (pos b) h = ap pos ((nat_beq_iff a b).0 h)
int_beq_sound (pos a) (negsuc b) h = cc
int_beq_sound (negsuc a) (pos b) h = cc
int_beq_sound (negsuc a) (negsuc b) h = ap negsuc ((nat_beq_iff a b).0 h)

pub int_beq_refl : (a : ℤ) → int_beq a a ≡ true
int_beq_refl (pos a) = (nat_beq_iff a a).1 refl
int_beq_refl (negsuc a) = (nat_beq_iff a a).1 refl

instance abbrev pub int_eq : HasEq ℤ
int_eq = record { eqb = int_beq; eqb_sound = int_beq_sound; eqb_refl = int_beq_refl }

-- `a - b`
abbrev pub sub_nat : ℕ → ℕ → ℤ
sub_nat a b = if leb b a then pos (a - b) else negsuc (b - a - 1)

infixl 60 ◌+ℤ◌
abbrev pub ◌+ℤ◌ : ℤ → ℤ → ℤ
pos a +ℤ pos b = pos (a + b)
pos a +ℤ negsuc b = sub_nat a (suc b)
negsuc a +ℤ pos b = sub_nat b (suc a)
negsuc a +ℤ negsuc b = negsuc (a + b + 1)
