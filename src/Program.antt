-- ===== src/Program.antt =====
-- main.c: the loop that starts the driver and scans the bus, round after round. What it prints, and the
-- console that it starts for that, are left out.
pub mod Rounds
pub mod Table
pub mod RootHub
use pure_usb.Prelude.{ℕ, zero, suc, ℤ, is_negative, List, Option, none, some, if◌then◌else◌}
use pure_usb.Usb.{World, M, pure, ◌>>=◌, ◌>>◌}
use pure_usb.Usb.Devices.{usb_init}
use pure_usb.Usb.Scan.{usb_scan_roothub}
use pure_usb.Usb.Hub.{Storage}
use pure_usb.Usb.Hub.Init.{usb_hub_init}
use pure_usb.Usb.Hub.Change.{usb_hub_scan}
use pure_usb.Ehci.{Controller, Ehci, E}
use pure_usb.Ehci.Schedule.{Statics}
use pure_usb.Ehci.Driver.{ehci_host}
use pure_usb.Ehci.Init.{ehci_init}
use pure_usb.Ohci.{ohci_check}

-- how a round ends: by `goto out`, or by the next one
pub data Next : Type 0 where
  out : Next
  continue : Next

-- a function of the driver, called directly
abbrev pub on_driver : {S A : Type 0} → E S A → M (Ehci S) A
on_driver f w = let (a, e) = f w.host in some (a, record w { host = e })

module _ (c : Controller) (s : Statics) (storage : Storage) where
  open c use {State}

  -- the scan of port 0, whether or not there is a device
  pub scan_port : ℕ → M (Ehci State) Next
  scan_port roothub = do
    (ret, dev) ← usb_hub_scan (ehci_host c s) storage roothub 0
    pure (if is_negative ret then out else continue)

  -- the root hub that was found
  pub use_roothub : Option ℕ → M (Ehci State) Next
  unfolding scan_port
  use_roothub none = pure out
  use_roothub (some roothub) = do
    ret ← usb_hub_init (ehci_host c s) storage roothub
    if is_negative ret then pure out else scan_port roothub

  -- a round after the controllers have been started
  pub scan_bus : M (Ehci State) Next
  unfolding use_roothub
  scan_bus = do
    ret ← usb_init
    if is_negative ret then pure out else (do
      (found, roothub) ← usb_scan_roothub (ehci_host c s) storage
      if is_negative found then pure out else use_roothub roothub)

  pub round : M (Ehci State) Next
  round = do
    ret ← on_driver (ehci_init c s)
    if is_negative ret then pure out else (do on_driver (ohci_check c); scan_bus)

  -- The loop, up to that many rounds. After `out`, `hang` is called and never returns.
  pub main : ℕ → M (Ehci State) Next
  main zero = pure continue
  main (suc rounds) = do next ← round; elim next [ out ↦ pure out | continue ↦ main rounds ]
