-- ===== src/Prelude/Word.antt =====
-- Words of fixed width as native numbers: casts, shifts and the bit operations of C.
use Prim.Native.Nat.{ℕ, ◌-◌, ◌*◌, ◌/◌, ◌%◌, ◌^◌, bit_and}
use mathlib.Core.Bool.{Bool, not}
use pure_usb.Prelude.Tests.{◌==◌}

abbrev pub u8 : ℕ → ℕ
u8 n = n % 2 ^ 8

abbrev pub u16 : ℕ → ℕ
u16 n = n % 2 ^ 16

abbrev pub u32 : ℕ → ℕ
u32 n = n % 2 ^ 32

-- A shift to the left in 32 bits: what leaves the word is lost.
abbrev pub shl : ℕ → ℕ → ℕ
shl x k = u32 (x * 2 ^ k)

abbrev pub shr : ℕ → ℕ → ℕ
shr x k = x / 2 ^ k

-- `~x` in 32 bits
abbrev pub complement : ℕ → ℕ
complement x = 2 ^ 32 - 1 - x

-- `x & m` used as a test
abbrev pub has_bits : ℕ → ℕ → Bool
has_bits x m = not (bit_and x m == 0)
