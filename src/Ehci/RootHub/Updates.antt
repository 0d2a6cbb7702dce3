-- ===== src/Ehci/RootHub/Updates.antt =====
-- The device that `ehci_submit_root` gives back.
use pure_usb.Prelude.{
  ℕ, ◌≡◌, refl, ℤ, pos, minus_one, ltb, List, Option, none, some, length, min, take, Bool-cases,
  Option-cases, inl, inr, arith,
}
use mathlib.Core.Path.{subst}
use pure_usb.Device.{Device, DevRequest, Buffer}
use pure_usb.Device.Bytes.{write_bytes}
use pure_usb.Usb.Table.{Updates, Updates-refl}
use pure_usb.Ehci.{Controller, Ehci}
use pure_usb.Ehci.Regs.{max_root_ports}
use pure_usb.Ehci.RootHub.{Answer, root_copy, root_request, ehci_submit_root}

answered-Updates :
    (d : Device) (act_len : ℤ) (status : ℕ)
    → Updates d (record d { act_len = act_len; status = status })
answered-Updates d act_len status = record { parent = refl; children = refl; same_sizes = refl }

-- the device of an answer that is known
returned-Updates :
    (d : Device) (x r : ℤ × Device × List ℕ)
    → Updates d x.1
    → ◌≡◌ {A = Option (ℤ × Device × List ℕ)} (some x) (some r)
    → Updates d r.1
returned-Updates d x r up e =
    subst (λ (y : ℤ × Device × List ℕ). Updates d y.1) {x = x} {y = r} (ground (arith, e)) up

module _ (c : Controller) where
  open c use {State}

  root_copy-Updates :
      (d : Device) (buffer : Buffer) (len_req len : ℕ) (answer : Answer) (e : Ehci State)
      (r : ℤ × Device × List ℕ)
      → (root_copy c d buffer len_req len answer e).0 ≡ some r
      → Updates d r.1
  unfolding root_copy
  root_copy-Updates d buffer len_req len none e r same =
      returned-Updates d _ r (answered-Updates d _ _) same
  root_copy-Updates d buffer len_req len (some none) e r same =
      returned-Updates d _ r (answered-Updates d _ _) same
  root_copy-Updates d buffer len_req len (some (some src)) e r same =
      let n = min (min (length src) len_req) len in
      elim (Option-cases (write_bytes buffer.bytes 0 (take n src))) [
        | inl outside ↦ ground (arith, outside, same)
        | inr (bytes, fits) ↦
            returned-Updates d (pos 0, record d { act_len = pos n; status = 0 }, bytes) r
              (answered-Updates d _ _) (ground (arith, fits, same))
      ]

  -- The device that `ehci_submit_root` gives back has another length and status only.
  pub ehci_submit_root-Updates :
      (d : Device) (buffer : Buffer) (len : ℕ) (req : DevRequest) (e : Ehci State)
      (r : ℤ × Device × List ℕ)
      → (ehci_submit_root c d buffer len req e).0 ≡ some r
      → Updates d r.1
  unfolding ehci_submit_root
  ehci_submit_root-Updates d buffer len req e r same =
      elim (Bool-cases (ltb max_root_ports req.index)) [
        | inl beyond ↦
            returned-Updates d (minus_one, d, buffer.bytes) r (Updates-refl d)
              (ground (arith, beyond, same))
        | inr known ↦
            let (answer, e1) = root_request c req e in
            root_copy-Updates d buffer req.length len answer e1 r (ground (arith, known, same))
      ]
