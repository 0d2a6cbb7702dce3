-- ===== src/Ehci/Async/Toggles.antt =====
-- The data toggle from one transfer to the next.
use pure_usb.Prelude.{
  ℕ, ◌/◌, ◌^◌, ◌<◌, ◌≡◌, ◌==◌, ◌&&◌, not, inl, inr, length, if◌then◌else◌, bit_and, has_bits, shr,
  arith, Bool-cases,
}
use pure_usb.Device.{Device}
use pure_usb.Pipe.{usb_gettoggle, usb_settoggle, usb_pipeendpoint, usb_pipeout}
use pure_usb.Pipe.Toggle.{gettoggle-settoggle, pipeendpoint-lt, pipeout-lt, gettoggle-toggle}
use pure_usb.Ehci.Async.{retire}

retired-toggle :
    (token pipe len : ℕ) (d : Device)
    → (retire token pipe len d).toggle ≡ (
        if not (has_bits token 0x80) && (bit_and token 0xfc == 0)
        then (usb_settoggle d (usb_pipeendpoint pipe) (usb_pipeout pipe) (shr token 31)).toggle
        else d.toggle)
unfolding retire
retired-toggle token pipe len d = ground arith

-- After a transfer the endpoint of its pipe has the toggle that the last token shows, if that is a
-- 32-bit token without an error; on any other token, and for any other endpoint or direction, the
-- toggles are as they were. The device has a toggle word for each direction.
pub gettoggle-retire :
    (token pipe len : ℕ) (d : Device) (k side : ℕ)
    → token < 2 ^ 32
    → length d.toggle ≡ 2
    → k < 16
    → usb_gettoggle (retire token pipe len d) k side ≡ (
        if (not (has_bits token 0x80) && (bit_and token 0xfc == 0))
          && ((k == usb_pipeendpoint pipe) && (side == usb_pipeout pipe))
        then token / 2 ^ 31
        else usb_gettoggle d k side)
gettoggle-retire token pipe len d k side word two small =
    let set' =
      gettoggle-settoggle d (usb_pipeendpoint pipe) (usb_pipeout pipe) (shr token 31) k side
        (pipeendpoint-lt pipe) small (omega arith) (omega (arith, pipeout-lt pipe)) in
    let toggles = retired-toggle token pipe len d in
    elim (Bool-cases (not (has_bits token 0x80) && (bit_and token 0xfc == 0))) [
      | inl fine ↦
          let same =
            gettoggle-toggle (retire token pipe len d)
              (usb_settoggle d (usb_pipeendpoint pipe) (usb_pipeout pipe) (shr token 31)) k side
              (ground (arith, toggles, fine)) in
          ground (arith, fine, same, set')
      | inr wrong ↦
          let same =
            gettoggle-toggle (retire token pipe len d) d k side (ground (arith, toggles, wrong)) in
          ground (arith, wrong, same)
    ]
