-- ===== src/Prelude/Int.antt =====
-- Signed integers over the native numbers, under the library's names.
use Prim.Native.Nat.{ℕ, zero, suc, ◌+◌, ◌-◌, ◌*◌, ◌/◌, ◌%◌}
use bintrade.Prelude.Tests.{leb, if◌then◌else◌}

-- `negsuc n` is -(n + 1).
pub data ℤ : Type 0 where
  pos : ℕ → ℤ
  negsuc : ℕ → ℤ

-- -n
abbrev pub neg_ℕ : ℕ → ℤ
neg_ℕ zero = pos 0
neg_ℕ (suc n) = negsuc n

-- a - b, as an integer.
abbrev pub sub_ℕ : ℕ → ℕ → ℤ
sub_ℕ a b = if leb b a then pos (a - b) else negsuc (b - a - 1)

infixl 65 ◌+ℤ◌
infixl 70 ◌*ℤ◌ ◌/ℤ◌ ◌%ℤ◌
abbrev pub ◌+ℤ◌ : ℤ → ℤ → ℤ
pos a +ℤ pos b = pos (a + b)
pos a +ℤ negsuc b = sub_ℕ a (suc b)
negsuc a +ℤ pos b = sub_ℕ b (suc a)
negsuc a +ℤ negsuc b = negsuc (a + b + 1)

abbrev pub ◌*ℤ◌ : ℤ → ℤ → ℤ
pos a *ℤ pos b = pos (a * b)
pos a *ℤ negsuc b = neg_ℕ (a * suc b)
negsuc a *ℤ pos b = neg_ℕ (suc a * b)
negsuc a *ℤ negsuc b = pos (suc a * suc b)

-- The quotient and the remainder of C++, which round towards zero.
abbrev pub ◌/ℤ◌ : ℤ → ℤ → ℤ
pos a /ℤ pos b = pos (a / b)
pos a /ℤ negsuc b = neg_ℕ (a / suc b)
negsuc a /ℤ pos b = neg_ℕ (suc a / b)
negsuc a /ℤ negsuc b = pos (suc a / suc b)

abbrev pub ◌%ℤ◌ : ℤ → ℤ → ℤ
pos a %ℤ pos b = pos (a % b)
pos a %ℤ negsuc b = pos (a % suc b)
negsuc a %ℤ pos b = neg_ℕ (suc a % b)
negsuc a %ℤ negsuc b = neg_ℕ (suc a % suc b)
