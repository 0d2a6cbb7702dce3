-- ===== src/Ehci/RootHub/Copy.antt =====
-- How much a root hub request writes into the caller's buffer.
use pure_usb.Prelude.{
  ℕ, ◌≤◌, ◌≡◌, inl, inr, refl, ℤ, pos, minus_one, ltb, List, none, some, length, length-take, take,
  min, arith, Bool-cases,
}
use pure_usb.Defs.{usb_st_stalled}
use pure_usb.Device.{Device, DevRequest, Buffer}
use pure_usb.Device.Bytes.{byte_at, overlay, byte_at-overlay_outside}
use pure_usb.Ehci.{Controller, Ehci}
use pure_usb.Ehci.Regs.{max_root_ports}
use pure_usb.Ehci.RootHub.{Answer, root_request, root_copy, ehci_submit_root}

-- A success reports `n` bytes, no more than the caller and the setup packet allow, and touches no
-- byte of the buffer past them; a failure leaves the buffer alone.
pub data Replies (buffer : Buffer) (len req_len : ℕ) : ℤ × Device × List ℕ → Type 0 where
  success :
      (dev : Device) (bytes : List ℕ) (n : ℕ)
      → dev.act_len ≡ pos n
      → dev.status ≡ 0
      → n ≤ len
      → n ≤ req_len
      → ((j : ℕ) → n ≤ j → byte_at bytes j ≡ byte_at buffer.bytes j)
      → Replies buffer len req_len (pos 0, dev, bytes)
  failure : (dev : Device) → Replies buffer len req_len (minus_one, dev, buffer.bytes)

module _ (c : Controller) (dev : Device) (buffer : Buffer) (len : ℕ) where
  open c use {State}

  root_copy-Replies :
      (req_len : ℕ) (answer : Answer) (e : Ehci State)
      → len ≤ length buffer.bytes
      → (r : ℤ × Device × List ℕ) × ((root_copy c dev buffer req_len len answer e).0 ≡ some r)
        × Replies buffer len req_len r
  unfolding root_copy
  root_copy-Replies req_len none e h =
      (_, refl, failure (record dev { act_len = pos 0; status = usb_st_stalled }))
  root_copy-Replies req_len (some none) e h = (
    _,
    refl,
    success (record dev { act_len = pos 0; status = 0 }) buffer.bytes 0 refl refl (omega arith)
        (omega arith) (λ j q. refl),
  )
  root_copy-Replies req_len (some (some src)) e h =
      let n = min (min (length src) req_len) len in
      let copied = length-take n src in
      (
        (pos 0, record dev { act_len = pos n; status = 0 }, overlay buffer.bytes 0 (take n src)),
        ground (arith, copied),
        success (record dev { act_len = pos n; status = 0 }) (overlay buffer.bytes 0 (take n src)) n
            refl refl (omega arith) (omega arith)
            (λ j q.
              byte_at-overlay_outside buffer.bytes 0 (take n src) j (inr (omega (arith, copied)))),
      )

  -- A root hub request into a buffer of at least `len` bytes always returns. If it succeeds, the
  -- device's status is clear and it reports at most `len` and at most `wLength` bytes, and no byte of
  -- the buffer past those is changed; if it fails, it returns -1 and the buffer is as it was.
  pub ehci_submit_root-Replies :
      (req : DevRequest) (e : Ehci State)
      → len ≤ length buffer.bytes
      → (r : ℤ × Device × List ℕ) × ((ehci_submit_root c dev buffer len req e).0 ≡ some r)
        × Replies buffer len req.length r
  unfolding ehci_submit_root
  ehci_submit_root-Replies req e h = elim (Bool-cases (ltb max_root_ports req.index)) [
    | inl beyond ↦ ((minus_one, dev, buffer.bytes), ground (arith, beyond), failure dev)
    | inr inside ↦
        let (answer, e') = root_request c req e in
        let (r, returns, replies) = root_copy-Replies req.length answer e' h in
        (r, ground (arith, inside, returns), replies)
  ]
