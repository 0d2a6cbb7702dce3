-- ===== src/Program/Rounds.antt =====
-- What each round starts from.
use pure_usb.Prelude.{
  pos, minus_one, ℕ, ◌≡◌, ◌%◌, refl, ap, ◌∙◌, has_bits, ◌⊎◌, inl, inr, some, arith,
}
use pure_usb.Usb.{World}
use pure_usb.Usb.Hub.{Storage}
use pure_usb.Ehci.{Controller, Ehci}
use pure_usb.Ehci.Schedule.{Statics, Memory}
use pure_usb.Ehci.Handshake.Kept.{variables}
use pure_usb.Ehci.Init.{ehci_init}
use pure_usb.Ehci.Init.Laws.{IsReady, reset_and_listed, ehci_init-IsReady}
use pure_usb.Ohci.{ohci_check}
use pure_usb.Ohci.Kept.{ohci_check-variables}
use pure_usb.Program.{out, scan_bus, round}

-- readiness is a matter of the variables
IsReady-variables :
    (c : Controller) (s : Statics) (old : ℕ) (hw : c.State) (e e' : Ehci c.State)
    → variables e' ≡ variables e
    → IsReady c s old hw e
    → IsReady c s old hw e'
IsReady-variables c s old hw e e' same ready =
    let address : e'.rootdev ≡ e.rootdev = ap (λ (v : ℕ × ℕ × ℕ × ℕ × Memory). v.0) same in
    let ports : e'.b_nbr_ports ≡ e.b_nbr_ports = ap (λ (v : ℕ × ℕ × ℕ × ℕ × Memory). v.2) same in
    let flags : e'.w_hub_characteristics ≡ e.w_hub_characteristics =
      ap (λ (v : ℕ × ℕ × ℕ × ℕ × Memory). v.3) same in
    let memory : e'.memory ≡ e.memory = ap (λ (v : ℕ × ℕ × ℕ × ℕ × Memory). v.4) same in
    record {
      head_link = ap (λ (m : Memory). m.qh_list.qh_link) memory ∙ ready.head_link;
      head_marked =
          ap (λ (m : Memory). has_bits m.qh_list.qh_endpt1 0x8000) memory ∙ ready.head_marked;
      head_halted =
          ap (λ (m : Memory). has_bits m.qh_list.qh_overlay.qt_token 0x40) memory
          ∙ ready.head_halted;
      head_empty = ap (λ (m : Memory). m.qh_list.qh_overlay.qt_next) memory ∙ ready.head_empty;
      address = address ∙ ready.address;
      ports = rw ports ready.ports;
      described = rw (ports, flags) (ready.described);
    }

module _ (c : Controller) (s : Statics) (storage : Storage) where
  open c use {State}

  -- the driver after `ehci_init` and the OHCI script
  abbrev pub started : Ehci State → Ehci State
  started e = (ohci_check c (ehci_init c s e).1).1

  -- A round either ends at once, `ehci_init` having returned -1, with the device table and the driver's
  -- variables as they were, or `ehci_init` has returned 0, and the round is a scan of the bus from the state
  -- in which the OHCI script leaves what `ehci_init` has made of the driver, which is still ready. The head
  -- of the reclaim list is aligned.
  pub round-IsReady :
      (w : World (Ehci State))
      → s.qh_list_at % 32 ≡ 0
      → (((ehci_init c s w.host).0 ≡ minus_one)
          × (w' : World (Ehci State)) × (round c s storage w ≡ some (out, w'))
          × (w'.usb_dev ≡ w.usb_dev)
          × (variables w'.host ≡ variables w.host))
        ⊎ (((ehci_init c s w.host).0 ≡ pos 0)
            × (round c s storage w ≡ scan_bus c s storage (record w { host = started w.host }))
            × IsReady c s w.host.w_hub_characteristics
                (reset_and_listed c s w.host)
                (started w.host))
  unfolding round
  round-IsReady w aligned = elim (ehci_init-IsReady c s w.host aligned) [
    | inl (zero', ready) ↦
        let e = started w.host in
        inr (
          zero',
          ground (arith, zero'),
          IsReady-variables c s w.host.w_hub_characteristics (reset_and_listed c s w.host)
              (ehci_init c s w.host).1 e (ohci_check-variables c (ehci_init c s w.host).1) ready,
        )
    | inr (refused, kept) ↦
        inl (
          refused,
          record w { host = (ehci_init c s w.host).1 },
          ground (arith, refused),
          refl,
          kept,
        )
  ]
