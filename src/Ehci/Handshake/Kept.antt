-- ===== src/Ehci/Handshake/Kept.antt =====
-- Register accesses, polling and the reset leave the driver's variables alone, but for the recorded
-- accesses.
use pure_usb.Prelude.{ℕ, zero, suc, ◌≡◌, refl, ◌∙◌, ap, max, Bool-cases, inl, inr, has_bits, arith}
use pure_usb.Ehci.{Controller, Ehci, ehci_readl, ehci_writel, udelay}
use pure_usb.Ehci.Regs.{or_usbcmd, or_usbsts, sts_halt, cmd_reset}
use pure_usb.Ehci.Schedule.{Memory}
use pure_usb.Ehci.Handshake.{poll, rounds, handshake, await_halt, reset_halted, ehci_reset}

-- the variables but for the recording ring, in the order of the state
abbrev pub variables : {S : Type 0} → Ehci S → ℕ × ℕ × ℕ × ℕ × Memory
variables e = (e.rootdev, e.portreset, e.b_nbr_ports, e.w_hub_characteristics, e.memory)

module _ (c : Controller) where
  open c use {State}

  poll-variables : (ptr : ℕ) (e : Ehci State) → variables (poll c ptr e).1 ≡ variables e
  unfolding poll
  poll-variables ptr e = refl

  rounds-variables :
      (left ptr mask done : ℕ) (e : Ehci State)
      → variables (rounds c ptr mask done left e).1 ≡ variables e
  unfolding rounds
  rounds-variables zero ptr mask done e = refl
  rounds-variables (suc left) ptr mask done e =
      ground (arith, rounds-variables left ptr mask done (poll c ptr e).1, poll-variables ptr e)

  pub handshake-variables :
      (ptr mask done usec : ℕ) (e : Ehci State)
      → variables (handshake c ptr mask done usec e).1 ≡ variables e
  unfolding handshake
  handshake-variables ptr mask done usec e = rounds-variables (max 1 usec) ptr mask done e

  pub handshake-memory :
      (ptr mask done usec : ℕ) (e : Ehci State)
      → (handshake c ptr mask done usec e).1.memory ≡ e.memory
  handshake-memory ptr mask done usec e =
      ap (λ (v : ℕ × ℕ × ℕ × ℕ × Memory). v.4) (handshake-variables ptr mask done usec e)

  await_halt-variables :
      (left cmd : ℕ) (e : Ehci State) → variables (await_halt c left cmd e).1 ≡ variables e
  unfolding await_halt
  await_halt-variables zero cmd e = refl
  await_halt-variables (suc left) cmd e =
      let read = ehci_readl c or_usbsts (udelay c 1 e).1 in
      ground (arith, await_halt-variables left read.0 read.1)

  reset_halted-variables :
      (status : ℕ) (e : Ehci State) → variables (reset_halted c status e).1 ≡ variables e
  unfolding reset_halted
  reset_halted-variables status e = elim (Bool-cases (has_bits status sts_halt)) [
    | inl halted ↦ rw halted (handshake-variables or_usbcmd cmd_reset 0 250000 _)
    | inr running ↦ rw running
  ]

  pub ehci_reset-variables : (e : Ehci State) → variables (ehci_reset c e).1 ≡ variables e
  unfolding ehci_reset
  ehci_reset-variables e =
      let stopped = (ehci_writel c or_usbcmd 0 e).1 in
      let waited = await_halt c 1001 0 stopped in
      reset_halted-variables waited.0 waited.1 ∙ await_halt-variables 1001 0 stopped
