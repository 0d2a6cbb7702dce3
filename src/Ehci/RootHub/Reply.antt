-- ===== src/Ehci/RootHub/Reply.antt =====
-- Every request to the root hub is answered, and leaves the hub addressable.
use pure_usb.Prelude.{
  ℕ, ◌==◌, ◌≡◌, ◌≤◌, refl, ℤ, pos, minus_one, ltb, List, Option, none, some, length, min, take,
  false, Bool-cases, inl, inr, arith, length-take,
}
use pure_usb.Device.{Device, DevRequest, Buffer}
use pure_usb.Device.Bytes.{overlay, length-overlay}
use pure_usb.Pipe.Fields.{PipeFits}
use pure_usb.Ehci.{Controller, Ehci, mdelay}
use pure_usb.Ehci.Regs.{max_root_ports}
use pure_usb.Ehci.RootHub.{Answer, root_copy, root_request, ehci_submit_root}
use pure_usb.Ehci.RootHub.Address.{HasAddress, request_type, root_request-HasAddress}

-- a device at the address `a` whose fields fit a pipe
pub record IsAt (a : ℕ) (d : Device) : Type 0 where
  pub fits : PipeFits d 0
  pub number : d.devnum ≡ a

pub replied-IsAt :
    (a : ℕ) (d : Device) (act_len : ℤ) (status : ℕ)
    → IsAt a d
    → IsAt a (record d { act_len = act_len; status = status })
replied-IsAt a d act_len status i = record {
  fits = record {
    devnum_fits = i.fits.devnum_fits;
    endpoint_fits = i.fits.endpoint_fits;
    speed_fits = i.fits.speed_fits;
    size_fits = i.fits.size_fits;
  };
  number = i.number;
}

module _ (c : Controller) (a : ℕ) where
  open c use {State}

  -- what a request comes to: a device at the address, a buffer of the same size, and a driver whose root
  -- hub has the address
  abbrev pub Replied : Buffer → Option (ℤ × Device × List ℕ) × Ehci State → Type 0
  Replied buffer p =
      (r : ℤ × Device × List ℕ) × (p.0 ≡ some r)
      × IsAt a r.1
      × (length r.2 ≡ length buffer.bytes)
      × HasAddress c a p.1

  root_copy-Replied :
      (d : Device) (buffer : Buffer) (len_req len : ℕ) (answer : Answer) (e : Ehci State)
      → IsAt a d
      → len ≤ length buffer.bytes
      → HasAddress c a e
      → Replied buffer (root_copy c d buffer len_req len answer e)
  unfolding root_copy mdelay
  root_copy-Replied d buffer len_req len none e i h p = (_, refl, replied-IsAt a d _ _ i, refl, p)
  root_copy-Replied d buffer len_req len (some none) e i h p =
      (_, refl, replied-IsAt a d _ _ i, refl, p)
  root_copy-Replied d buffer len_req len (some (some src)) e i h p =
      let n = min (min (length src) len_req) len in
      (
        (pos 0, record d { act_len = pos n; status = 0 }, overlay buffer.bytes 0 (take n src)),
        ground (arith, length-take n src),
        replied-IsAt a d _ _ i,
        length-overlay buffer.bytes 0 (take n src),
        p,
      )

  pub ehci_submit_root-Replied :
      (d : Device) (buffer : Buffer) (len : ℕ) (req : DevRequest) (e : Ehci State)
      → IsAt a d
      → len ≤ length buffer.bytes
      → HasAddress c a e
      → (request_type req == 0x0005) ≡ false
      → Replied buffer (ehci_submit_root c d buffer len req e)
  unfolding ehci_submit_root
  ehci_submit_root-Replied d buffer len req e i h p other =
      elim (Bool-cases (ltb max_root_ports req.index)) [
        | inl beyond ↦ rw beyond ((minus_one, d, buffer.bytes), refl, i, refl, p)
        | inr known ↦
            let (answer, e1) = root_request c req e in
            rw known (
              root_copy-Replied d buffer req.length len answer e1 i h
                ((root_request-HasAddress c a req other).at e p))
      ]
