-- ===== src/Program/Table.antt =====
-- The device table, round after round.
use pure_usb.Prelude.{
  ℕ, zero, suc, ◌≡◌, ◌⊎◌, refl, is_negative, Option, none, some, get_elem?-replicate, Option-cases,
  inl, inr, arith,
}
use pure_usb.Usb.{World, M, pure}
use pure_usb.Usb.Keeps.{Leaves, Keeps, Any, Keeps-done, Keeps-if, Keeps-then, keeps_rules, returned}
use pure_usb.Usb.Table.{Tabled}
use pure_usb.Usb.Devices.{usb_init}
use pure_usb.Usb.Devices.Forest.{initial, unassigned, unassigned-IsLinked}
use pure_usb.Usb.Scan.{usb_scan_roothub}
use pure_usb.Usb.Scan.Table.{usb_scan_roothub-Tabled}
use pure_usb.Usb.Hub.{Storage}
use pure_usb.Usb.Hub.Init.Table.{usb_hub_init-Keeps}
use pure_usb.Usb.Hub.Change.Table.{usb_hub_scan-Keeps}
use pure_usb.Ehci.{Controller, Ehci, E}
use pure_usb.Ehci.Schedule.{Statics}
use pure_usb.Ehci.Init.{ehci_init}
use pure_usb.Ohci.{ohci_check}
use pure_usb.Ehci.Driver.{ehci_host}
use pure_usb.Ehci.Driver.Conforms.{ehci_host-Conforms}
use pure_usb.Program.{Next, out, continue, on_driver, scan_port, use_roothub, scan_bus, round, main}

initial-Tabled : {S : Type 0} (w : World S) → Tabled 0 (initial w)
initial-Tabled w = record {
  linked = unassigned-IsLinked;
  sized = λ i d e. ground (arith, get_elem?-replicate 32 i unassigned d e);
  enough = omega arith;
}

module _ (c : Controller) (s : Statics) (storage : Storage) where
  open c use {State}

  on_driver-Keeps : {A : Type 0} (used : ℕ) (f : E State A) → Keeps (Tabled used) (on_driver f) Any
  on_driver-Keeps used f = record { at = λ w a w' t e. returned (Tabled used) Any e t tt }

  use_roothub-Keeps :
      (roothub : Option ℕ)
      → (roothub ≡ none) ⊎ (roothub ≡ some 0)
      → Keeps (Tabled 1) (use_roothub c s storage roothub) Any
  unfolding use_roothub scan_port
  use_roothub-Keeps none root = search keeps_rules
  use_roothub-Keeps (some zero) root = search (
    keeps_rules,
    usb_hub_init-Keeps (ehci_host c s) (ehci_host-Conforms c s) storage 1,
    usb_hub_scan-Keeps (ehci_host c s) (ehci_host-Conforms c s) storage 1 0 (omega arith),
  )
  use_roothub-Keeps (some (suc dev)) root = ground (arith, root)

  pub scan_bus-IsTable : Leaves (scan_bus c s storage) (λ next w'. Tabled 1 w')
  unfolding scan_bus usb_init
  scan_bus-IsTable = record {
    at = λ w next w' e. elim (Option-cases (usb_scan_roothub (ehci_host c s) storage (initial w))) [
      | inl gone ↦ ground (arith, gone, e)
      | inr ((r, w1), scanned) ↦
          let (t, root) =
            usb_scan_roothub-Tabled (ehci_host c s) (ehci_host-Conforms c s) storage (initial w) r
              w1 (initial-Tabled w) refl scanned in
          ((Keeps-if (is_negative r.0) (pure out) (use_roothub c s storage r.1) (Keeps-done out)
              (use_roothub-Keeps r.1 root)).at
            w1 next w' t (ground (arith, scanned, e))).0
    ];
  }

  round-Keeps : Keeps (Tabled 0) (round c s storage) Any
  unfolding round
  round-Keeps = Keeps-then _ _ (on_driver-Keeps 0 (ehci_init c s)) λ ret.
      Keeps-if (is_negative ret) _ _ (Keeps-done out)
        (Keeps-then _ _ (on_driver-Keeps 0 (ohci_check c)) λ u. scan_bus-Keeps)
    where
      scan_bus-Keeps : Keeps (Tabled 0) (scan_bus c s storage) Any
      scan_bus-Keeps = record {
        at = λ w a w' t e.
            let t' = (scan_bus-IsTable.at w a w' e) in
            (record { linked = t'.linked; sized = t'.sized; enough = omega arith }, tt);
      }

  go_on-Keeps :
      (next : Next) (rest : M (Ehci State) Next)
      → Keeps (Tabled 0) rest Any
      → Keeps {S = Ehci State} {A = Next}
          (Tabled 0)
          (elim next [ out ↦ pure out | continue ↦ rest ])
          Any
  go_on-Keeps out rest k = Keeps-done out
  go_on-Keeps continue rest k = k

  -- The loop of `main` keeps the device table a forest of well-sized devices, over any controller and
  -- for any number of rounds.
  pub main-Keeps : (rounds : ℕ) → Keeps (Tabled 0) (main c s storage rounds) Any
  unfolding main
  main-Keeps zero = search keeps_rules
  main-Keeps (suc rounds) =
      Keeps-then _ _ round-Keeps
        λ next. go_on-Keeps next (main c s storage rounds) (main-Keeps rounds)
