-- ===== src/Common/Int.antt =====
-- Go's signed `int` for depths, sort orders and page numbers, without a width: the code adds one,
-- subtracts depths and multiplies a page by its size, on values that stay far below 2^63.
use Prim.Native.Nat.{ℕ, suc, ◌+◌, ◌-◌}
use mathlib.Core.Path.{◌≡◌}
use mathlib.Core.Bool.{Bool}
use native.Mathlib.Omega.{arith}
use mattermost_plugin_org_di.Common.Tests.{leb, ltb, eqb, if◌then◌else◌}

-- `negsuc n` is -(n + 1).
pub data ℤ : Type 0 where
  pos : ℕ → ℤ
  negsuc : ℕ → ℤ

abbrev pub pos_part : ℤ → ℕ
pos_part (pos n) = n
pos_part (negsuc n) = 0

abbrev pub neg_part : ℤ → ℕ
neg_part (pos n) = 0
neg_part (negsuc n) = suc n

abbrev pub sub_ℕ : ℕ → ℕ → ℤ
sub_ℕ a b = if leb b a then pos (a - b) else negsuc (b - a - 1)

infixl 65 ◌+ℤ◌ ◌-ℤ◌
unfoldable pub ◌+ℤ◌ : ℤ → ℤ → ℤ
a +ℤ b = sub_ℕ (pos_part a + pos_part b) (neg_part a + neg_part b)

unfoldable pub ◌-ℤ◌ : ℤ → ℤ → ℤ
a -ℤ b = sub_ℕ (pos_part a + neg_part b) (neg_part a + pos_part b)

abbrev pub ltb_ℤ : ℤ → ℤ → Bool
ltb_ℤ a b = ltb (pos_part a + neg_part b) (pos_part b + neg_part a)

abbrev pub eqb_ℤ : ℤ → ℤ → Bool
eqb_ℤ a b = eqb (pos_part a + neg_part b) (pos_part b + neg_part a)

-- Moving by the difference of two depths keeps a distance of one between parent and child.
pub +ℤ-shift : (a b d : ℤ) → a ≡ b +ℤ pos 1 → a +ℤ d ≡ (b +ℤ d) +ℤ pos 1
unfolding ◌+ℤ◌
+ℤ-shift a b d h = ground arith

pub +ℤ-sub : (a b : ℤ) → a +ℤ (b -ℤ a) ≡ b
unfolding ◌+ℤ◌ ◌-ℤ◌
+ℤ-sub a b = ground arith

pub +ℤ-one_ne : (a : ℤ) → ¬ (a ≡ a +ℤ pos 1)
unfolding ◌+ℤ◌
+ℤ-one_ne a h = ground arith

pub +ℤ-one_inj : (a b : ℤ) → a +ℤ pos 1 ≡ b +ℤ pos 1 → a ≡ b
unfolding ◌+ℤ◌
+ℤ-one_inj a b h = ground arith

pub +ℤ-one_zero : ¬ (pos 0 ≡ pos 0 +ℤ pos 1)
+ℤ-one_zero = +ℤ-one_ne (pos 0)

-- A child of the moved node is one below its new depth.
pub +ℤ-rebase : (c a b : ℤ) → c ≡ a +ℤ pos 1 → c +ℤ (b -ℤ a) ≡ b +ℤ pos 1
unfolding ◌+ℤ◌ ◌-ℤ◌
+ℤ-rebase c a b h = ground arith
