-- ===== src/Prelude/Bits.antt =====
-- Laws of `|` and `&` at variables: a digit at a time, and then for whole fields.
use Prim.Native.Nat.{
  ℕ, zero, suc, ◌+◌, ◌-◌, ◌*◌, ◌/◌, ◌%◌, ◌^◌, ◌≤◌, ◌<◌, min, max, bit_and, bit_or, digits, bitwise,
  bit_and-bitwise, bit_or-bitwise,
}
use mathlib.Core.Path.{◌≡◌, refl, ap}
use native.Mathlib.Nat.{le_refl, pow-suc, one-le-pow}
use native.Mathlib.Omega.{arith}

-- `digits` recurs on fuel; more fuel than the number is of no effect.
module _ (z : ℕ → ℕ) (f : ℕ → ℕ → ℕ) where
  enough_fuel : (m n a b : ℕ) → a ≤ m → a ≤ n → digits z f m a b ≡ digits z f n a b
  enough_fuel zero zero a b p q = refl
  enough_fuel zero (suc n) zero b p q = refl
  enough_fuel zero (suc n) (suc a) b p q = absurd (omega arith)
  enough_fuel (suc m) zero zero b p q = refl
  enough_fuel (suc m) zero (suc a) b p q = absurd (omega arith)
  enough_fuel (suc m) (suc n) zero b p q = refl
  enough_fuel (suc m) (suc n) (suc a) b p q =
      rw (enough_fuel m n (suc a / 2) (b / 2) (omega arith) (omega arith))

  lowest_digit :
      (a b : ℕ)
      → bitwise z f (suc a) b ≡ bitwise z f (suc a / 2) (b / 2) * 2 + f (suc a % 2) (b % 2)
  lowest_digit a b =
      omega (arith, enough_fuel a (suc a / 2) (suc a / 2) (b / 2) (omega arith) (le_refl _))

pub bit_or-digit : (a b : ℕ) → bit_or a b ≡ bit_or (a / 2) (b / 2) * 2 + max (a % 2) (b % 2)
bit_or-digit zero b = simp bit_or-bitwise (omega arith)
bit_or-digit (suc a) b = simp bit_or-bitwise (lowest_digit (λ y. y) max a b)

pub bit_and-digit : (a b : ℕ) → bit_and a b ≡ bit_and (a / 2) (b / 2) * 2 + min (a % 2) (b % 2)
bit_and-digit zero b = simp bit_and-bitwise (omega arith)
bit_and-digit (suc a) b = simp bit_and-bitwise (lowest_digit (λ y. 0) min a b)

bit_or-zero_below : (n a : ℕ) → a ≤ n → bit_or a 0 ≡ a
bit_or-zero_below n zero h = refl
bit_or-zero_below zero (suc a) h = absurd (omega arith)
bit_or-zero_below (suc n) (suc a) h =
    omega (arith, bit_or-digit (suc a) 0, bit_or-zero_below n (suc a / 2) (omega arith))

pub bit_or-zero : (a : ℕ) → bit_or a 0 ≡ a
bit_or-zero a = bit_or-zero_below a a (le_refl _)

bit_and-zero_below : (n a : ℕ) → a ≤ n → bit_and a 0 ≡ 0
bit_and-zero_below n zero h = refl
bit_and-zero_below zero (suc a) h = absurd (omega arith)
bit_and-zero_below (suc n) (suc a) h =
    omega (arith, bit_and-digit (suc a) 0, bit_and-zero_below n (suc a / 2) (omega arith))

pub bit_and-zero : (a : ℕ) → bit_and a 0 ≡ 0
bit_and-zero a = bit_and-zero_below a a (le_refl _)

-- Multiples of 2 ^ (k + 1) as twice those of 2 ^ k.
pub double : (q k : ℕ) → q * 2 ^ suc k ≡ 2 * (q * 2 ^ k)
double q k = omega (arith, ap (λ (t : ℕ). q * t) (pow-suc 2 k))

-- Both operations work on the bits above and below a position separately.
pub bit_or-split :
    (k q r p s : ℕ)
    → r < 2 ^ k
    → s < 2 ^ k
    → bit_or (q * 2 ^ k + r) (p * 2 ^ k + s) ≡ bit_or q p * 2 ^ k + bit_or r s
bit_or-split zero q r p s h g = ground (arith, bit_or-zero 0)
bit_or-split (suc k) q r p s h g = ground (
  arith,
  bit_or-digit (q * 2 ^ suc k + r) (p * 2 ^ suc k + s),
  bit_or-digit r s,
  double q k,
  double p k,
  double (bit_or q p) k,
  bit_or-split k q (r / 2) p (s / 2) (omega (arith, pow-suc 2 k)) (omega (arith, pow-suc 2 k)),
)

pub bit_and-split :
    (k q r p s : ℕ)
    → r < 2 ^ k
    → s < 2 ^ k
    → bit_and (q * 2 ^ k + r) (p * 2 ^ k + s) ≡ bit_and q p * 2 ^ k + bit_and r s
bit_and-split zero q r p s h g = ground (arith, bit_and-zero 0)
bit_and-split (suc k) q r p s h g = ground (
  arith,
  bit_and-digit (q * 2 ^ suc k + r) (p * 2 ^ suc k + s),
  bit_and-digit r s,
  double q k,
  double p k,
  double (bit_and q p) k,
  bit_and-split k q (r / 2) p (s / 2) (omega (arith, pow-suc 2 k)) (omega (arith, pow-suc 2 k)),
)

pub zero-bit_or : (b : ℕ) → bit_or 0 b ≡ b
zero-bit_or b = simp bit_or-bitwise refl

pub zero-bit_and : (b : ℕ) → bit_and 0 b ≡ 0
zero-bit_and b = simp bit_and-bitwise refl

-- Fields that do not overlap add up, in either order.
pub bit_or-disjoint : (k q r : ℕ) → r < 2 ^ k → bit_or (q * 2 ^ k) r ≡ q * 2 ^ k + r
bit_or-disjoint k q r h =
    ground (arith, one-le-pow k 2, bit_or-split k q 0 0 r, bit_or-zero q, zero-bit_or r)

pub bit_or-disjoint_low : (k q r : ℕ) → r < 2 ^ k → bit_or r (q * 2 ^ k) ≡ q * 2 ^ k + r
bit_or-disjoint_low k q r h =
    ground (arith, one-le-pow k 2, bit_or-split k 0 r q 0, bit_or-zero r, zero-bit_or q)

-- A mask of the low `k` bits is the remainder by 2 ^ k.
bit_and-ones : (k r : ℕ) → r < 2 ^ k → bit_and r (2 ^ k - 1) ≡ r
bit_and-ones zero r h = omega (arith, bit_and-zero r)
bit_and-ones (suc k) r h = ground (
  arith,
  bit_and-digit r (2 ^ suc k - 1),
  pow-suc 2 k,
  bit_and-ones k (r / 2) (omega (arith, pow-suc 2 k)),
)

pub bit_and-mask : (k a : ℕ) → bit_and a (2 ^ k - 1) ≡ a % 2 ^ k
bit_and-mask k a = ground (
  arith,
  one-le-pow k 2,
  bit_and-split k (a / 2 ^ k) (a % 2 ^ k) 0 (2 ^ k - 1),
  bit_and-zero (a / 2 ^ k),
  bit_and-ones k (a % 2 ^ k),
)
