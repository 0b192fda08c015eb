-- ===== src/Prelude/Int.antt =====
-- Signed integers over the native numbers, as Go's int: differences and the test for a sign.
use Prim.Native.Nat.{ℕ, zero, suc, ◌+◌, ◌-◌, ◌*◌, ◌/◌, ◌%◌, ◌^◌}
use mathlib.Core.Bool.{Bool, true, false}
use someguy.Prelude.Tests.{leb, ltb, if◌then◌else◌}

-- `negsuc n` is -(n + 1).
pub data ℤ : Type 0 where
  pos : ℕ → ℤ
  negsuc : ℕ → ℤ

-- a - b, as an integer.
abbrev pub sub_ℕ : ℕ → ℕ → ℤ
sub_ℕ a b = if leb b a then pos (a - b) else negsuc (b - a - 1)

-- z < 0
abbrev pub is_negative : ℤ → Bool
is_negative (pos n) = false
is_negative (negsuc n) = true

-- a < b
abbrev pub ltb_ℤ : ℤ → ℤ → Bool
ltb_ℤ (pos a) (pos b) = ltb a b
ltb_ℤ (pos a) (negsuc b) = false
ltb_ℤ (negsuc a) (pos b) = true
ltb_ℤ (negsuc a) (negsuc b) = ltb b a

abbrev pub min_ℤ : ℤ → ℤ → ℤ
min_ℤ a b = if ltb_ℤ b a then b else a

-- The int64 whose bits are those of n modulo 2 ^ 64.
abbrev pub wrap64 : ℕ → ℤ
wrap64 n = let r = n % 2 ^ 64 in if ltb r (2 ^ 63) then pos r else negsuc (2 ^ 64 - r - 1)

-- -n
abbrev pub opposite : ℕ → ℤ
opposite zero = pos zero
opposite (suc n) = negsuc n

-- The quotient of a division by b, towards zero; b is not 0.
abbrev pub quot_ℤ : ℤ → ℕ → ℤ
quot_ℤ (pos a) b = pos (a / b)
quot_ℤ (negsuc a) b = opposite ((a + 1) / b)

-- 2 * z, as an int64.
abbrev pub double64 : ℤ → ℤ
double64 (pos a) = wrap64 (2 * a)
double64 (negsuc a) = wrap64 (2 ^ 65 - 2 * (a + 1))
