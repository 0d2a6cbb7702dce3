-- ===== src/Usb.antt =====
-- The state of usb.c and the monad that its functions run in.
pub mod Keeps
pub mod Runs
pub mod Message
pub mod Request
pub mod Devices
pub mod Table
pub mod MaxPacket
pub mod Config
pub mod Strings
pub mod Scan
pub mod Hub
use pure_usb.Prelude.{
  ℕ, zero, suc, Bool, true, false, List, Option, none, some, get_elem?, set, replicate,
}
use pure_usb.Device.{Device, DevRequest}
use pure_usb.Host.{Host}

-- The static variables of usb.c, and the state of the driver and the hardware below.
pub record World (S : Type 0) : Type 0 where
  pub usb_dev : List Device
  pub g_dev_index : ℕ
  pub running : ℕ
  pub asynch_allowed : Bool
  pub usb_started : Bool
  pub setup_packet : DevRequest
  pub host : S

-- `none` is undefined behaviour: a null pointer followed, or an access outside an object.
abbrev pub M : Type 0 → Type 0 → Type 0
M S A = World S → Option (A × World S)

abbrev pub pure : {S A : Type 0} → A → M S A
pure a w = some (a, w)

infixl 5 ◌>>=◌ ◌>>◌
abbrev pub ◌>>=◌ : {S A B : Type 0} → M S A → (A → M S B) → M S B
◌>>=◌ m f w = elim (m w) [ none ↦ none | some (a, w') ↦ f a w' ]

abbrev pub ◌>>◌ : {S B : Type 0} → M S (Unit {0}) → M S B → M S B
m >> k = m >>= λ _. k

module _ {S : Type 0} where
  unfoldable pub get_dev : ℕ → M S Device
  get_dev i w = elim (get_elem? w.usb_dev i) [ none ↦ none | some d ↦ some (d, w) ]

  pub put_dev : ℕ → Device → M S (Unit {0})
  put_dev i d w = some (tt, record w { usb_dev = set w.usb_dev i d })

module _ (h : Host) where
  open h use {State}

  unfoldable pub mdelay : ℕ → M State (Unit {0})
  mdelay ms w = some (tt, record w { host = h.mdelay ms w.host })

  unfoldable pub udelay : ℕ → M State (Unit {0})
  udelay us w = some (tt, record w { host = h.udelay us w.host })

  -- `while (ms-- > 0) udelay(1000)`
  unfoldable pub wait_ms : ℕ → M State (Unit {0})
  unfolding udelay
  wait_ms zero = pure tt
  wait_ms (suc ms) = udelay 1000 >> wait_ms ms
