-- ===== src/Ehci/RootHub/Address.antt =====
-- The root hub's address changes by SET_ADDRESS alone.
use pure_usb.Prelude.{
  u16, ℕ, ◌==◌, ◌≡◌, Bool, true, false, Option, none, some, ap, ◌∙◌, if◌then◌else◌, bit_or, shl,
  u16, arith,
}
use pure_usb.Device.{DevRequest}
use pure_usb.Ehci.{Controller, Ehci, E, ehci_readl, ehci_writel, mdelay}
use pure_usb.Ehci.Yields.{Preserves, preserves_rules}
use pure_usb.Ehci.Schedule.{Memory}
use pure_usb.Ehci.Handshake.{handshake}
use pure_usb.Ehci.Handshake.Kept.{handshake-variables}
use pure_usb.Ehci.RootHub.{
  get_descriptor, get_hub_descriptor, get_port_status, reset_port, set_feature, set_port_feature,
  forget_reset, write_back, clear_port_feature, root_request,
}

-- the request in the low byte, its type in the high one
abbrev pub request_type : DevRequest → ℕ
request_type req = u16 (bit_or req.request (shl req.requesttype 8))

module _ (c : Controller) (a : ℕ) where
  open c use {State}

  abbrev pub HasAddress : Ehci State → Type 0
  HasAddress e = e.rootdev ≡ a

  readl-HasAddress : (reg : ℕ) → Preserves HasAddress (ehci_readl c reg)
  unfolding ehci_readl
  readl-HasAddress reg = record { at = λ e p. p }

  writel-HasAddress : (reg val : ℕ) → Preserves HasAddress (ehci_writel c reg val)
  unfolding ehci_writel
  writel-HasAddress reg val = record { at = λ e p. p }

  mdelay-HasAddress : (ms : ℕ) → Preserves HasAddress (mdelay c ms)
  unfolding mdelay
  mdelay-HasAddress ms = record { at = λ e p. p }

  handshake-HasAddress :
      (ptr mask done usec : ℕ) → Preserves HasAddress (handshake c ptr mask done usec)
  handshake-HasAddress ptr mask done usec = record {
    at = λ e p.
        ap (λ (v : ℕ × ℕ × ℕ × ℕ × Memory). v.0) (handshake-variables c ptr mask done usec e) ∙ p;
  }

  ruleset access_rules = (
    preserves_rules, readl-HasAddress, writel-HasAddress, mdelay-HasAddress, handshake-HasAddress,
  )

  get_descriptor-HasAddress : (value : ℕ) → Preserves HasAddress (get_descriptor c value)
  unfolding get_descriptor
  get_descriptor-HasAddress value = search access_rules

  get_hub_descriptor-HasAddress : (value : ℕ) → Preserves HasAddress (get_hub_descriptor c value)
  unfolding get_hub_descriptor
  get_hub_descriptor-HasAddress value = record { at = λ e p. ground arith }

  get_port_status-HasAddress : (index : ℕ) → Preserves HasAddress (get_port_status c index)
  unfolding get_port_status ehci_readl
  get_port_status-HasAddress index = record { at = λ e p. p }

  -- the end of a port's reset, which is recorded if it has worked
  recorded-HasAddress :
      (b : Bool) (index : ℕ)
      → Preserves {S = State} HasAddress (λ e.
        (tt {0}, if b then record e { portreset = u16 (bit_or e.portreset (shl 1 index)) } else e))
  recorded-HasAddress true index = record { at = λ e p. p }
  recorded-HasAddress false index = record { at = λ e p. p }

  reset_port-HasAddress : (index reg : ℕ) → Preserves HasAddress (reset_port c index reg)
  unfolding reset_port
  reset_port-HasAddress index reg = search (access_rules, recorded-HasAddress) depth 12

  set_feature-HasAddress :
      (value index reg : ℕ) → Preserves HasAddress (set_feature c value index reg)
  unfolding set_feature
  set_feature-HasAddress value index reg = search (access_rules, reset_port-HasAddress) depth 14

  set_port_feature-HasAddress :
      (value index : ℕ) → Preserves HasAddress (set_port_feature c value index)
  unfolding set_port_feature
  set_port_feature-HasAddress value index = search (access_rules, set_feature-HasAddress)

  forget_reset-HasAddress : (value index : ℕ) → Preserves HasAddress (forget_reset c value index)
  forget_reset-HasAddress value index = record { at = λ e p. ground (arith, p) }

  write_back-HasAddress : (index : ℕ) (o : Option ℕ) → Preserves HasAddress (write_back c index o)
  unfolding write_back
  write_back-HasAddress index none = search access_rules
  write_back-HasAddress index (some reg) = search access_rules

  clear_port_feature-HasAddress :
      (value index : ℕ) → Preserves HasAddress (clear_port_feature c value index)
  unfolding clear_port_feature
  clear_port_feature-HasAddress value index =
      search (access_rules, forget_reset-HasAddress, write_back-HasAddress) depth 12

  Preserves-unless :
      {A : Type 0} (b : Bool) (m n : E State A)
      → b ≡ false
      → Preserves HasAddress n
      → Preserves HasAddress (if b then m else n)
  Preserves-unless true m n never k = cc
  Preserves-unless false m n never k = k

  pub root_request-HasAddress :
      (req : DevRequest)
      → (request_type req == 0x0005) ≡ false
      → Preserves HasAddress (root_request c req)
  unfolding root_request
  root_request-HasAddress req other =
      search
        (
          get_descriptor-HasAddress, get_hub_descriptor-HasAddress, Preserves-unless, access_rules,
          get_port_status-HasAddress, set_port_feature-HasAddress, clear_port_feature-HasAddress,
        )
        depth 14
