-- ===== src/Tests/Table.antt =====
-- The device table and the root hub over small drivers.
use pure_usb.Prelude.{refl, ℤ, ℕ, ◌≡◌, pos, [], ◌∷◌, none, some, get_elem?, arith}
use mathlib.Core.Path.{subst}
use pure_usb.Device.{Device, Buffer}
use pure_usb.Host.{Host, Completion}
use pure_usb.Usb.{World}
use pure_usb.Usb.Keeps.{Leaves, Keeps, Any}
use pure_usb.Usb.Table.{Updates, Updates-refl, Tabled, Conforms}
use pure_usb.Usb.Table.Calls.{usb_calls-Keeps}
use pure_usb.Usb.Message.{usb_bulk_msg}
use pure_usb.Usb.Request.{usb_set_interface, usb_clear_halt}
use pure_usb.Usb.Hub.Init.{usb_hub_init}
use pure_usb.Usb.Scan.{usb_scan_device, usb_scan_roothub}
use pure_usb.Usb.Hub.Change.{usb_hub_scan}
use pure_usb.Ehci.{Ehci}
use pure_usb.Ehci.Driver.{ehci_host}
use pure_usb.Ehci.Driver.Conforms.{ehci_host-Conforms}
use pure_usb.Usb.Hub.{hub_port_reset}
use pure_usb.Ehci.Driver.Returns.{IsRoot}
use pure_usb.Ehci.Driver.Hub.{hub_driver-Runs}
use pure_usb.Program.{scan_bus, main}
use pure_usb.Program.Table.{scan_bus-IsTable, main-Keeps}
use pure_usb.Program.RootHub.{buffers, before_scan, IsRootHub, usb_scan_roothub-RootHub}
use pure_usb.Tests.Ehci.{counting, idle}
use pure_usb.Tests.Hub.{storage, portsts}
use pure_usb.Tests.Async.{placed, plugged, hub}

abbrev answered : Device → Completion (Unit {0})
answered d = record { ret = pos 0; dev = d; bytes = 3 ∷ 1 ∷ 0 ∷ 0 ∷ []; host = tt }

-- each transfer to a device that is there succeeds, and leaves the device alone
abbrev calm : Host
calm = record {
  State = Unit {0};
  submit_control_msg = λ devs dev pipe buffer len req s. elim (get_elem? devs dev) [
    | none ↦ none
    | some d ↦ some (answered d)
  ];
  submit_bulk_msg = λ devs dev pipe buffer len s. elim (get_elem? devs dev) [
    | none ↦ none
    | some d ↦ some (answered d)
  ];
  submit_int_msg = λ devs dev pipe buffer len interval s. none;
  mdelay = λ ms s. s;
  udelay = λ us s. s;
}

answered-Updates : (d : Device) (c : Completion (Unit {0})) → answered d ≡ c → Updates d c.dev
answered-Updates d c e = subst (λ (x : Completion (Unit {0})). Updates d x.dev) e (Updates-refl d)

calm-Conforms : Conforms calm
calm-Conforms = record {
  after_control =
      λ devs dev pipe len buffer setup s d c here e. answered-Updates d c (ground (arith, here, e));
  after_bulk =
      λ devs dev pipe len buffer s d c here e. answered-Updates d c (ground (arith, here, e));
}

abbrev four : Buffer
four = record { addr = 0x100; bytes = 0 ∷ 0 ∷ 0 ∷ 0 ∷ [] }

usb_calls-Keeps_example :
    Keeps (Tabled 1) (usb_bulk_msg calm 0 0 four 4 100) Any
    × Keeps (Tabled 1) (usb_set_interface calm 0 0 0) Any
    × Keeps (Tabled 1) (usb_clear_halt calm 0 0) Any
    × Keeps (Tabled 1) (usb_scan_device calm storage 0) Any
    × Keeps (Tabled 1) (usb_hub_init calm storage 0) Any
    × Keeps (Tabled 1) (usb_hub_scan calm storage 0 3) Any
usb_calls-Keeps_example =
    usb_calls-Keeps calm calm-Conforms storage 1 0 0 0 0 3 4 100 four (omega arith)

ehci_host-Conforms_example : Conforms (ehci_host counting placed)
ehci_host-Conforms_example = ehci_host-Conforms counting placed

scan_bus-IsTable_example : Leaves (scan_bus counting placed storage) (λ next w'. Tabled 1 w')
scan_bus-IsTable_example = scan_bus-IsTable counting placed storage

main-Keeps_example : Keeps (Tabled 0) (main counting placed storage 2) Any
main-Keeps_example = main-Keeps counting placed storage 2

usb_scan_roothub-RootHub_example :
    (w' : World (Ehci ℕ)) × (usb_scan_roothub
        (ehci_host counting placed)
        (buffers 0x3000 0x4000 0x2000 (λ i. 0x5000) (λ i. i) (λ i. 7) (λ i. 0))
        (before_scan plugged idle)
      ≡ some ((pos 0, some 0), w'))
    × (w'.g_dev_index ≡ 1)
    × ((d : Device) × (get_elem? w'.usb_dev 0 ≡ some d) × IsRootHub d)
    × (w'.host.rootdev ≡ 1)
    × (w'.host.memory ≡ idle.memory)
    × (w'.host.g_rec ≡ idle.g_rec)
usb_scan_roothub-RootHub_example =
    usb_scan_roothub-RootHub counting placed plugged idle 0x3000 0x4000 0x2000 (λ i. 0x5000)
      (λ i. i) (λ i. 7) (λ i. 0)

-- the root hub of `plugged` has the address 1
plugged-IsRoot : IsRoot counting placed 1 0 plugged
plugged-IsRoot = record {
  device = hub;
  there = refl;
  at_address = record {
    fits = record {
      devnum_fits = omega arith;
      endpoint_fits = omega arith;
      speed_fits = omega arith;
      size_fits = omega arith;
    };
    number = refl;
  };
  answers = refl;
}

hub_driver-Runs_example :
    (r : ℤ × ℕ) × (w' : World (Ehci ℕ)) × (hub_port_reset
        (ehci_host counting placed)
        portsts
        0
        1
        plugged
      ≡ some (r, w'))
    × IsRoot counting placed 1 0 w'
    × Any r
hub_driver-Runs_example =
    (hub_driver-Runs counting placed 1 0 1 4 portsts portsts (omega arith) (omega arith)
        (omega arith)).3.at
      plugged plugged-IsRoot
