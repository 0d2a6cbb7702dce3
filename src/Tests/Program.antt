-- ===== src/Tests/Program.antt =====
-- Rounds of the main loop over the counting controller.
use pure_usb.Prelude.{pos, minus_one, ℕ, ◌≡◌, refl, ◌⊎◌, some}
use pure_usb.Usb.{World}
use pure_usb.Ehci.{Ehci}
use pure_usb.Ehci.Handshake.Kept.{variables}
use pure_usb.Ehci.Init.Laws.{IsReady, reset_and_listed}
use pure_usb.Program.{out, scan_bus, round}
use pure_usb.Ehci.Init.{ehci_init}
use pure_usb.Program.Rounds.{started, round-IsReady}
use pure_usb.Tests.Ehci.{counting}
use pure_usb.Tests.Hub.{storage}
use pure_usb.Tests.Async.{placed, plugged}

round-IsReady_example :
    (((ehci_init counting placed plugged.host).0 ≡ minus_one)
      × (w' : World (Ehci ℕ)) × (round counting placed storage plugged ≡ some (out, w'))
      × (w'.usb_dev ≡ plugged.usb_dev)
      × (variables w'.host ≡ variables plugged.host))
    ⊎ (((ehci_init counting placed plugged.host).0 ≡ pos 0)
        × (round counting placed storage plugged
            ≡ scan_bus counting placed storage
                (record plugged { host = started counting placed storage plugged.host }))
        × IsReady counting placed plugged.host.w_hub_characteristics
            (reset_and_listed counting placed plugged.host)
            (started counting placed storage plugged.host))
round-IsReady_example = round-IsReady counting placed storage plugged refl
