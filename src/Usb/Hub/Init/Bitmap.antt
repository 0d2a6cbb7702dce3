-- ===== src/Usb/Hub/Init/Bitmap.antt =====
-- The two bitmaps of a hub's descriptor.
use pure_usb.Prelude.{
  ℕ, zero, suc, ◌+◌, ◌/◌, ◌<◌, ◌≡◌, refl, ◌∙◌, List, [], ◌∷◌, some, Option-cases, inl, inr, take,
  drop, arith, length-take, length-drop, get_or-take,
}
use pure_usb.Device.Bytes.{byte_at, overlay, byte_at-overlay_inside, byte_at-overlay_outside}
use pure_usb.Device.Layout.{
  b_nbr_ports, w_hub_characteristics, device_removable, port_power_ctrl_mask,
}
use pure_usb.Usb.Hub.Init.{copy_bytes, adopt_descriptor}

byte_at-drop : (n : ℕ) (xs : List ℕ) (k : ℕ) → byte_at (drop n xs) k ≡ byte_at xs (n + k)
byte_at-drop zero xs k = ground arith
byte_at-drop (suc n) [] k = refl
byte_at-drop (suc n) (x ∷ xs) k = ground (arith, byte_at-drop n xs k)

pub copy_bytes-copied :
    (hub : List ℕ) (to : ℕ) (buffer : List ℕ) (from n k : ℕ) {ys : List ℕ}
    → copy_bytes hub to buffer from n ≡ some ys
    → k < n
    → byte_at ys (to + k) ≡ byte_at buffer (from + k)
unfolding copy_bytes
copy_bytes-copied hub to buffer from n k e small =
    let src = take n (drop from buffer) in
    ground (
      arith,
      length-take n (drop from buffer),
      length-drop from buffer,
      get_or-take n (drop from buffer) k 0,
      byte_at-drop from buffer k,
      byte_at-overlay_inside hub to src k,
    )

copy_bytes-below :
    (hub : List ℕ) (to : ℕ) (buffer : List ℕ) (from n k : ℕ) {ys : List ℕ}
    → copy_bytes hub to buffer from n ≡ some ys
    → k < to
    → byte_at ys k ≡ byte_at hub k
unfolding copy_bytes
copy_bytes-below hub to buffer from n k e small =
    ground (arith, byte_at-overlay_outside hub to (take n (drop from buffer)) k (inl small))

-- When `usb_hub_init` adopts a descriptor, its DeviceRemovable bytes are the PortPwrCtrlMask bytes of
-- the buffer, as many as the ports of the adopted descriptor need, and what the buffer has for
-- DeviceRemovable is lost.
pub adopt_descriptor-removable :
    (hub buffer : List ℕ) (k : ℕ) {ys : List ℕ}
    → adopt_descriptor hub buffer ≡ some ys
    → k < (byte_at ys b_nbr_ports + 8) / 8
    → byte_at ys (device_removable + k) ≡ byte_at buffer (port_power_ctrl_mask + k)
unfolding adopt_descriptor
adopt_descriptor-removable hub buffer k {ys} e small =
    elim (Option-cases (copy_bytes hub 0 buffer 0 (byte_at buffer 0))) [
      | inl gone ↦ ground arith
      | inr (h1, e1) ↦
          let h2 = overlay h1 w_hub_characteristics (
            byte_at buffer w_hub_characteristics
            ∷ byte_at buffer (w_hub_characteristics + 1)
            ∷ []) in
          let h3 = overlay h2 device_removable (0xff ∷ 0xff ∷ []) in
          let h4 = overlay h3 port_power_ctrl_mask (0xff ∷ 0xff ∷ []) in
          let n = (byte_at h4 b_nbr_ports + 8) / 8 in
          elim (Option-cases (copy_bytes h4 device_removable buffer device_removable n)) [
            | inl gone ↦ ground arith
            | inr (h5, e5) ↦
                let e6 : copy_bytes h5 device_removable buffer port_power_ctrl_mask n ≡ some ys =
                  ground arith in
                let same =
                  copy_bytes-below h5 device_removable buffer port_power_ctrl_mask n b_nbr_ports e6
                    (omega arith)
                  ∙ copy_bytes-below h4 device_removable buffer device_removable n b_nbr_ports e5
                      (omega arith) in
                copy_bytes-copied h5 device_removable buffer port_power_ctrl_mask n k e6
                  (ground (arith, same))
          ]
    ]
