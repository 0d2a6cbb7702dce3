-- ===== src/Ehci.antt =====
-- The state of ehci-hcd.c, the hardware below it, and the recorded register accesses. The processor
-- is little-endian, so the conversions cpu_to_le32 and the like are the identity.
pub mod Regs
pub mod Yields
pub mod Queue
pub mod Schedule
pub mod Async
pub mod Driver
pub mod Init
pub mod RootHub
pub mod Record
pub mod Handshake
use pure_usb.Prelude.{
  u32, ltb, if◌then◌else◌, ◌-◌, ◌^◌, ◌==◌, ℕ, zero, suc, ◌+◌, ◌%◌, Bool, true, false, List, Option,
  some, none, set,
}
use pure_usb.Ehci.Schedule.{Memory}

-- The machine below the driver: its registers, which any read may change, the passing of time, and
-- the controller's own accesses to the memory that it shares with the driver. `dma` is what it has
-- done there since the driver last looked.
pub record Controller : Type 1 where
  pub State : Type 0
  pub read : ℕ → State → ℕ × State
  pub write : ℕ → ℕ → State → State
  pub mdelay : ℕ → State → State
  pub udelay : ℕ → State → State
  pub dma : Memory → State → Memory × State

-- `struct ehci_rec`
pub record EhciRec : Type 0 where
  pub reg : ℕ
  pub dir : ℕ
  pub val : ℕ

abbrev pub rsz : ℕ
rsz = 300

-- The static variables of ehci-hcd.c, those of the schedule in `memory`; of the root hub's `descriptor`, the two fields of its hub part
-- that `ehci_init` changes.
pub record Ehci (S : Type 0) : Type 0 where
  pub rootdev : ℕ
  pub g_ehci_counter : ℕ
  pub g_rec : List EhciRec
  pub portreset : ℕ
  pub b_nbr_ports : ℕ
  pub w_hub_characteristics : ℕ
  pub memory : Memory
  pub hw : S

abbrev pub E : Type 0 → Type 0 → Type 0
E S A = Ehci S → A × Ehci S

abbrev pub return : {S A : Type 0} → A → E S A
return a e = (a, e)

infixl 5 ◌>>=◌ ◌>>◌
abbrev pub ◌>>=◌ : {S A B : Type 0} → E S A → (A → E S B) → E S B
◌>>=◌ m f e = let (a, e') = m e in f a e'

abbrev pub ◌>>◌ : {S B : Type 0} → E S (Unit {0}) → E S B → E S B
m >> k = m >>= λ _. k

-- The counter is an `int`, held here as its 32-bit word. C leaves its overflow undefined; the word wraps
-- around, as the processor's does.
unfoldable pub next_count : ℕ → ℕ
next_count counter = u32 (counter + 1)

-- `g_rec[g_ehci_counter % RSZ] = r`: the remainder of a negative counter is negative or 0, and a negative
-- index lies before the ring, which stays as it is.
unfoldable pub put_rec : ℕ → EhciRec → List EhciRec → List EhciRec
put_rec counter r ring =
    if ltb counter (2 ^ 31)
    then set ring (counter % rsz) r
    else if (2 ^ 32 - counter) % rsz == 0
    then set ring 0 r
    else ring

-- an entry of the ring that records register accesses
abbrev pub record_access : {S : Type 0} → EhciRec → Ehci S → Ehci S
record_access r e = record e {
  g_rec = put_rec e.g_ehci_counter r e.g_rec;
  g_ehci_counter = next_count e.g_ehci_counter;
}

module _ (c : Controller) where
  open c use {State}

  -- `ehci_readl_` and `ehci_writel_`, the plain accesses
  unfoldable pub readl_plain : ℕ → E State ℕ
  readl_plain reg e = let (val, s) = c.read reg e.hw in (val, record e { hw = s })

  unfoldable pub writel_plain : ℕ → ℕ → E State (Unit {0})
  writel_plain reg val e = (tt, record e { hw = c.write reg val e.hw })

  unfoldable pub ehci_readl : ℕ → E State ℕ
  unfolding readl_plain
  ehci_readl reg = do
    val ← readl_plain reg
    λ e. (val, record_access (record { reg = reg; dir = 0; val = val }) e)

  unfoldable pub ehci_writel : ℕ → ℕ → E State (Unit {0})
  unfolding writel_plain
  ehci_writel reg val = do
    writel_plain reg val
    λ e. (tt, record_access (record { reg = reg; dir = 1; val = val }) e)

  -- the OHCI register that ohci-test.c reads
  unfoldable pub ohci_readl : ℕ → E State ℕ
  unfolding readl_plain
  ohci_readl reg = readl_plain (Regs.ohci_regs_base + reg)

  unfoldable pub mdelay : ℕ → E State (Unit {0})
  mdelay ms e = (tt, record e { hw = c.mdelay ms e.hw })

  unfoldable pub udelay : ℕ → E State (Unit {0})
  udelay us e = (tt, record e { hw = c.udelay us e.hw })
