-- ===== src/Prelude/Int.antt =====
-- The `int` values that the driver returns: lengths and negative error codes.
use Prim.Native.Nat.{ℕ, suc, ◌-◌}
use mathlib.Core.Bool.{Bool, true, false}
use pure_usb.Prelude.Tests.{leb, ◌==◌, if◌then◌else◌}

-- `negsuc n` is -(n + 1).
pub data ℤ : Type 0 where
  pos : ℕ → ℤ
  negsuc : ℕ → ℤ

-- a - b, as an integer.
abbrev pub sub_ℕ : ℕ → ℕ → ℤ
sub_ℕ a b = if leb b a then pos (a - b) else negsuc (b - a - 1)

-- `x < 0`
abbrev pub is_negative : ℤ → Bool
is_negative (pos n) = false
is_negative (negsuc n) = true

-- `x == 0`, the test `!x` of C
abbrev pub is_zero : ℤ → Bool
is_zero (pos n) = leb n 0
is_zero (negsuc n) = false

-- `x < n` for a constant `n`
abbrev pub less_than : ℤ → ℕ → Bool
less_than (pos m) n = leb (suc m) n
less_than (negsuc m) n = true

abbrev pub minus_one : ℤ
minus_one = negsuc 0

abbrev pub equals : ℤ → ℕ → Bool
equals (pos n) k = n == k
equals (negsuc n) k = false
