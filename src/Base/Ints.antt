-- ===== src/Base/Ints.antt =====
-- Integers, by their two parts.
use Prim.Native.Nat.{ℕ, suc, ◌+◌, ◌-◌, ◌≤◌}
use mathlib.Core.Path.{◌≡◌}
use mathlib.Core.Bool.{Bool}
use native.Mathlib.Omega.{arith}
use carmentis_node.Base.Tests.{ltb, leb, if◌then◌else◌}

-- `negsuc n` is -(n + 1).
pub data ℤ : Type 0 where
  pos : ℕ → ℤ
  negsuc : ℕ → ℤ

abbrev pub pos_part : ℤ → ℕ
pos_part (pos n) = n
pos_part (negsuc n) = 0

abbrev pub neg_part : ℤ → ℕ
neg_part (pos n) = 0
neg_part (negsuc n) = suc n

-- The difference of two numbers.
abbrev pub sub_ℕ : ℕ → ℕ → ℤ
sub_ℕ a b = if leb b a then pos (a - b) else negsuc (b - a - 1)

infixl 65 ◌+ℤ◌
infix 50 ◌≤ℤ◌
unfoldable pub ◌+ℤ◌ : ℤ → ℤ → ℤ
a +ℤ b = sub_ℕ (pos_part a + pos_part b) (neg_part a + neg_part b)

-- `-n`
unfoldable pub minus : ℕ → ℤ
minus n = sub_ℕ 0 n

abbrev pub ◌≤ℤ◌ : ℤ → ℤ → Type 0
a ≤ℤ b = pos_part a + neg_part b ≤ pos_part b + neg_part a

abbrev pub ltb_ℤ : ℤ → ℤ → Bool
ltb_ℤ a b = ltb (pos_part a + neg_part b) (pos_part b + neg_part a)

pub +ℤ_parts :
    (a b : ℤ)
    → pos_part (a +ℤ b) + neg_part a + neg_part b ≡ neg_part (a +ℤ b) + pos_part a + pos_part b
unfolding ◌+ℤ◌
+ℤ_parts a b = ground arith

pub minus_parts : (n : ℕ) → (pos_part (minus n) ≡ 0) × (neg_part (minus n) ≡ n)
unfolding minus
minus_parts n = ground arith

pub eq_of_parts : (a b : ℤ) → pos_part a + neg_part b ≡ pos_part b + neg_part a → a ≡ b
eq_of_parts a b h = ground arith

pub ruleset int_laws = (arith, +ℤ_parts, minus_parts, eq_of_parts)

pub +ℤ_zero : (a : ℤ) → a +ℤ minus 0 ≡ a
unfolding ◌+ℤ◌ minus
+ℤ_zero (pos n) = ground arith
+ℤ_zero (negsuc n) = ground arith

pub minus-minus : (a : ℤ) (m n : ℕ) → a +ℤ minus m +ℤ minus n ≡ a +ℤ minus (m + n)
unfolding ◌+ℤ◌ minus
minus-minus a m n = ground arith

pub pos_minus : (n : ℕ) → pos n +ℤ minus n ≡ pos 0
unfolding ◌+ℤ◌ minus
pos_minus n = ground arith

-- What takes no less than there is, and leaves no debt, leaves nothing.
pub pos_minus-zero : (m n : ℕ) → m ≤ n → pos 0 ≤ℤ (pos m +ℤ minus n) → pos m +ℤ minus n ≡ pos 0
unfolding ◌+ℤ◌ minus
pos_minus-zero m n h covered = ground (arith, h, covered)
