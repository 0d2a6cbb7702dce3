-- ===== src/Pipe/Toggle.antt =====
-- The data toggle and halt bits of a device's endpoints.
use pure_usb.Prelude.{
  ℕ, ◌*◌, ◌/◌, ◌^◌, ◌<◌, ◌≡◌, ap, List, arith, get_or, get_or-set_self, get_or-set_ne, length,
  bit_or, bit_and, bit_xor, shl, shr, ◌==◌, ◌&&◌, if◌then◌else◌, zero, suc, complement,
}
use native.Mathlib.Nat.{pow-le-pow_right}
use pure_usb.Prelude.Bits.{bit_and-mask}
use pure_usb.Prelude.Testbit.{
  test_bit, test_bit-lt, test_bit-shr, test_bit-bit_and, test_bit-bit_or, test_bit-complement,
  test_bit-shl,
}
use pure_usb.Device.{Device}
use pure_usb.Pipe.{usb_gettoggle, usb_settoggle, usb_pipeendpoint, usb_pipeout}

gettoggle-test_bit :
    (d : Device) (ep out : ℕ) → usb_gettoggle d ep out ≡ test_bit ep (get_or d.toggle out 0)
unfolding usb_gettoggle
gettoggle-test_bit d ep out = omega (
  arith,
  bit_and-mask 1 (get_or d.toggle out 0 / 2 ^ ep),
  test_bit-shr ep (get_or d.toggle out 0),
)

-- A single bit stays in the word.
pub shl_bit : (bit ep : ℕ) → bit < 2 → ep < 32 → shl bit ep ≡ bit * 2 ^ ep
shl_bit zero ep b h = omega arith
shl_bit (suc zero) ep b h =
    omega (arith, pow-le-pow_right {n = 2} (omega arith) {i = ep} {j = 31} (omega arith))
shl_bit (suc (suc bit)) ep b h = absurd (omega arith)

-- the bits of `~(1 << ep)`
pub test_bit-clear_mask :
    (ep k : ℕ) → ep < 32 → k < 32 → test_bit k (complement (shl 1 ep)) ≡ (if k == ep then 0 else 1)
test_bit-clear_mask ep k h q =
    ground (arith, shl_bit 1 ep, test_bit-complement 32 k (shl 1 ep), test_bit-shl ep k 1)

-- the bits of `(w & ~(1 << ep)) | (bit << ep)`
test_bit-replace :
    (w ep bit k : ℕ)
    → ep < 32
    → bit < 2
    → k < 32
    → test_bit k (bit_or (bit_and w (complement (shl 1 ep))) (shl bit ep))
      ≡ (if k == ep then bit else test_bit k w)
test_bit-replace w ep bit k h b q = ground (
  arith,
  test_bit-bit_or k (bit_and w (complement (shl 1 ep))) (shl bit ep),
  test_bit-bit_and k w (complement (shl 1 ep)),
  test_bit-clear_mask ep k h q,
  shl_bit bit ep b h,
  test_bit-shl ep k bit b,
  test_bit-lt k w,
)

-- Setting the toggle of an endpoint below 16, in a direction the device has, to 0 or 1 sets that bit,
-- and leaves every other endpoint below 16, in either direction, alone.
pub gettoggle-settoggle :
    (d : Device) (ep out bit k side : ℕ)
    → ep < 16
    → k < 16
    → bit < 2
    → out < length d.toggle
    → usb_gettoggle (usb_settoggle d ep out bit) k side
      ≡ (if (k == ep) && (side == out) then bit else usb_gettoggle d k side)
unfolding usb_settoggle
gettoggle-settoggle d ep out bit k side h q b o = ground (
  arith,
  gettoggle-test_bit (usb_settoggle d ep out bit) k side,
  gettoggle-test_bit d k side,
  test_bit-replace (get_or d.toggle out 0) ep bit k,
  get_or-set_self d.toggle out
      (bit_or (bit_and (get_or d.toggle out 0) (complement (shl 1 ep))) (shl bit ep)) 0,
  get_or-set_ne d.toggle out side
      (bit_or (bit_and (get_or d.toggle out 0) (complement (shl 1 ep))) (shl bit ep)) 0,
)

pub gettoggle-lt : (d : Device) (ep out : ℕ) → usb_gettoggle d ep out < 2
unfolding usb_gettoggle
gettoggle-lt d ep out = omega (arith, bit_and-mask 1 (shr (get_or d.toggle out 0) ep))

-- What a pipe names is in range.
pub pipeendpoint-lt : (pipe : ℕ) → usb_pipeendpoint pipe < 16
unfolding usb_pipeendpoint
pipeendpoint-lt pipe = omega (arith, bit_and-mask 4 (shr pipe 15))

flip-lt : (b : ℕ) → b < 2 → bit_xor b 1 < 2
flip-lt zero h = omega arith
flip-lt (suc zero) h = omega arith
flip-lt (suc (suc b)) h = absurd (omega arith)

pub pipeout-lt : (pipe : ℕ) → usb_pipeout pipe < 2
unfolding usb_pipeout
pipeout-lt pipe = flip-lt (bit_and (shr pipe 7) 1) (omega (arith, bit_and-mask 1 (shr pipe 7)))

-- Only the toggles of a device bear on `usb_gettoggle`.
pub gettoggle-toggle :
    (d d' : Device) (ep out : ℕ)
    → d.toggle ≡ d'.toggle
    → usb_gettoggle d ep out ≡ usb_gettoggle d' ep out
unfolding usb_gettoggle
gettoggle-toggle d d' ep out h = ap (λ (t : List ℕ). bit_and (shr (get_or t out 0) ep) 1) h
