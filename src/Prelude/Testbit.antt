-- ===== src/Prelude/Testbit.antt =====
-- A word as its bits: the bit operations of C, bit by bit.
use Prim.Native.Nat.{ℕ, zero, suc, ◌-◌, ◌*◌, ◌/◌, ◌%◌, ◌^◌, ◌<◌, min, max, bit_and, bit_or}
use mathlib.Core.Path.{◌≡◌, refl}
use native.Mathlib.Nat.{pow-suc, one-le-pow, mul_comm, le-div_iff_mul-le, div-mul-le_self}
use native.Mathlib.Omega.{arith}
use pure_usb.Prelude.Tests.{◌==◌, if◌then◌else◌}
use pure_usb.Prelude.Word.{has_bits}
use pure_usb.Prelude.Bits.{bit_or-digit, bit_and-digit, bit_and-zero, double}

pub test_bit : ℕ → ℕ → ℕ
test_bit zero x = x % 2
test_bit (suc k) x = test_bit k (x / 2)

pub test_bit-lt : (k x : ℕ) → test_bit k x < 2
unfolding test_bit
test_bit-lt zero x = omega arith
test_bit-lt (suc k) x = test_bit-lt k (x / 2)

-- Halving and then shifting by `k` is one shift.
div-double : (x t : ℕ) → 0 < t → x / (2 * t) ≡ x / 2 / t
div-double x t h = omega (
  arith,
  (le-div_iff_mul-le {k = 2 * t} {x = x / 2 / t} {y = x} (omega arith)).1
      (omega (arith, div-mul-le_self (x / 2) t)),
  (le-div_iff_mul-le {k = t} {x = x / (2 * t)} {y = x / 2} h).1
      (omega (arith, div-mul-le_self x (2 * t))),
)

pub test_bit-shr : (k x : ℕ) → x / 2 ^ k % 2 ≡ test_bit k x
unfolding test_bit
test_bit-shr zero x = omega arith
test_bit-shr (suc k) x =
    rw (pow-suc 2 k, mul_comm (2 ^ k) 2, div-double x (2 ^ k) (one-le-pow k 2 (omega arith)))
      (test_bit-shr k (x / 2))

pub test_bit-bit_and : (k x y : ℕ) → test_bit k (bit_and x y) ≡ min (test_bit k x) (test_bit k y)
unfolding test_bit
test_bit-bit_and zero x y = omega (arith, bit_and-digit x y)
test_bit-bit_and (suc k) x y = ground (arith, bit_and-digit x y, test_bit-bit_and k (x / 2) (y / 2))

pub test_bit-bit_or : (k x y : ℕ) → test_bit k (bit_or x y) ≡ max (test_bit k x) (test_bit k y)
unfolding test_bit
test_bit-bit_or zero x y = omega (arith, bit_or-digit x y)
test_bit-bit_or (suc k) x y = ground (arith, bit_or-digit x y, test_bit-bit_or k (x / 2) (y / 2))

-- `~x` in `n` bits flips each of them.
pub test_bit-complement :
    (n k x : ℕ) → x < 2 ^ n → k < n → test_bit k (2 ^ n - 1 - x) ≡ 1 - test_bit k x
unfolding test_bit
test_bit-complement zero k x h q = absurd (omega arith)
test_bit-complement (suc n) zero x h q = omega (arith, pow-suc 2 n)
test_bit-complement (suc n) (suc k) x h q =
    ground (arith, pow-suc 2 n, test_bit-complement n k (x / 2))

pub test_bit-zero : (k : ℕ) → test_bit k 0 ≡ 0
unfolding test_bit
test_bit-zero zero = refl
test_bit-zero (suc k) = test_bit-zero k

-- the bits of `b << n` for a single bit `b`
pub test_bit-shl : (n k b : ℕ) → b < 2 → test_bit k (b * 2 ^ n) ≡ (if k == n then b else 0)
unfolding test_bit
test_bit-shl zero zero b h = omega arith
test_bit-shl zero (suc k) b h = ground (arith, test_bit-zero k)
test_bit-shl (suc n) zero b h = grind (arith, double b n)
test_bit-shl (suc n) (suc k) b h = ground (arith, double b n, test_bit-shl n k b)

-- A mask of one bit picks that bit.
pub bit_and-one_bit : (k x : ℕ) → bit_and x (2 ^ k) ≡ test_bit k x * 2 ^ k
unfolding test_bit
bit_and-one_bit zero x = ground (arith, bit_and-digit x 1, bit_and-zero (x / 2))
bit_and-one_bit (suc k) x = ground (
  arith,
  pow-suc 2 k,
  bit_and-digit x (2 ^ suc k),
  bit_and-one_bit k (x / 2),
  double (test_bit k (x / 2)) k,
)

pub has_bits-one_bit : (k x : ℕ) → has_bits x (2 ^ k) ≡ (test_bit k x == 1)
has_bits-one_bit k x = ground (arith, bit_and-one_bit k x, test_bit-lt k x, one-le-pow k 2)
