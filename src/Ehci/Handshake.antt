-- ===== src/Ehci/Handshake.antt =====
-- `handshake` and `ehci_reset`: polling a register until it shows what is awaited.
pub mod Laws
pub mod Kept
use pure_usb.Prelude.{
  ℕ, zero, suc, ◌+◌, ◌-◌, ◌*◌, ◌<◌, ◌^◌, ◌≡◌, refl, ◌==◌, ltb, ℤ, pos, negsuc, minus_one,
  is_negative, not, Bool, true, false, List, Option, none, some, max, if◌then◌else◌, bit_and,
  bit_or, has_bits, arith,
}
use pure_usb.Ehci.{
  Controller, Ehci, E, return, ◌>>=◌, ◌>>◌, readl_plain, writel_plain, ehci_readl, ehci_writel,
  ohci_readl, udelay,
}
use pure_usb.Ehci.Regs.{or_usbcmd, or_usbsts, sts_fatal, sts_halt, cmd_reset}

-- what one polled word decides: all ones means the controller is gone
unfoldable pub verdict : ℕ → ℕ → ℕ → Option ℤ
verdict mask done result =
    if result == 2 ^ 32 - 1
    then some minus_one
    else if has_bits result sts_fatal
    then some (negsuc 15)
    else if bit_and result mask == done
    then some (pos 0)
    else none

module _ (c : Controller) where
  open c use {State}

  -- one round's accesses
  unfoldable pub poll : ℕ → E State ℕ
  unfolding ohci_readl readl_plain udelay
  poll ptr = do
    _ ← ohci_readl c 0x0c
    _ ← ohci_readl c 0x10
    result ← readl_plain c ptr
    udelay c 5
    return result

  -- the rounds left, none of which is begun when the counter is used up
  unfoldable pub rounds : ℕ → ℕ → ℕ → ℕ → E State ℤ
  rounds ptr mask done zero = return (negsuc 1)
  rounds ptr mask done (suc left) = do
    result ← poll ptr
    elim (verdict mask done result) [ some ret ↦ return ret | none ↦ rounds ptr mask done left ]

  -- `usec` is positive at every call; the body of `do … while` runs at least once
  unfoldable pub handshake : ℕ → ℕ → ℕ → ℕ → E State ℤ
  unfolding rounds verdict
  handshake ptr mask done usec = rounds ptr mask done (max 1 usec)

  -- `do … while ((cmd & STS_HALT) == 0 && attempt++ < 1000)`, with the rounds left
  pub await_halt : ℕ → ℕ → E State ℕ
  unfolding udelay ehci_readl
  await_halt zero cmd = return cmd
  await_halt (suc left) cmd = do
    udelay c 1
    cmd' ← ehci_readl c or_usbsts
    elim (has_bits cmd' sts_halt) [ true ↦ return cmd' | false ↦ await_halt left cmd' ]

  -- with the last status that was read
  pub reset_halted : ℕ → E State ℤ
  unfolding ehci_readl writel_plain
  reset_halted status = if not (has_bits status sts_halt) then return minus_one else (do
    cmd ← ehci_readl c or_usbcmd
    writel_plain c or_usbcmd (bit_or cmd cmd_reset)
    handshake or_usbcmd cmd_reset 0 250000)

  pub ehci_reset : E State ℤ
  unfolding ehci_writel
  ehci_reset = do ehci_writel c or_usbcmd 0; status ← await_halt 1001 0; reset_halted status
