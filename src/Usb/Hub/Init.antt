-- ===== src/Usb/Hub/Init.antt =====
-- usb_hub_init of usb.c.
pub mod Bitmap
pub mod Bounds
pub mod Table
use pure_usb.Prelude.{
  ℕ, zero, suc, ◌+◌, ◌/◌, ◌==◌, ltb, ℤ, pos, minus_one, is_negative, List, [], ◌∷◌, Option, none,
  some, if◌then◌else◌, ◌||◌,
}
use pure_usb.Defs.{usb_bufsiz}
use pure_usb.Device.{Device, Buffer}
use pure_usb.Device.Bytes.{byte_at, read_bytes, write_bytes, overlay}
use pure_usb.Device.Layout.{
  b_nbr_ports, w_hub_characteristics, device_removable, port_power_ctrl_mask,
}
use pure_usb.Host.{Host}
use pure_usb.Usb.{M, pure, ◌>>=◌, ◌>>◌, get_dev, put_dev}
use pure_usb.Usb.Hub.{Storage, usb_get_hub_descriptor, usb_get_hub_status, usb_hub_power_on}

-- `n` bytes of the buffer from `from` on, copied to `to` in the hub's descriptor
pub copy_bytes : List ℕ → ℕ → List ℕ → ℕ → ℕ → Option (List ℕ)
copy_bytes hub to buffer from n = elim (read_bytes buffer from n) [
  | none ↦ none
  | some src ↦ write_bytes hub to src
]

-- The hub's descriptor as it is made from the buffer. Both bitmaps of the buffer go to
-- DeviceRemovable, in this order.
unfoldable pub adopt_descriptor : List ℕ → List ℕ → Option (List ℕ)
unfolding copy_bytes overlay
adopt_descriptor hub buffer = elim (copy_bytes hub 0 buffer 0 (byte_at buffer 0)) [
  | none ↦ none
  | some h1 ↦
      let h2 =
        overlay h1 w_hub_characteristics (
          byte_at buffer w_hub_characteristics ∷ byte_at buffer (w_hub_characteristics + 1) ∷ []) in
      let h3 = overlay h2 device_removable (0xff ∷ 0xff ∷ []) in
      let h4 = overlay h3 port_power_ctrl_mask (0xff ∷ 0xff ∷ []) in
      let n = (byte_at h4 b_nbr_ports + 8) / 8 in
      elim (copy_bytes h4 device_removable buffer device_removable n) [
        | none ↦ none
        | some h5 ↦ copy_bytes h5 device_removable buffer port_power_ctrl_mask n
      ]
]

module _ (h : Host) (storage : Storage) where
  open h use {State}

  -- with the whole descriptor in the buffer
  pub adopt_hub : ℕ → List ℕ → M State ℤ
  unfolding get_dev put_dev adopt_descriptor
  adopt_hub dev bytes = do
    d ← get_dev dev
    elim (adopt_descriptor d.hubdescriptor bytes) [
      | none ↦ λ w. none
      | some descriptor ↦ (do
        put_dev dev (record d { hubdescriptor = descriptor; maxchild = byte_at bytes b_nbr_ports })
        (ret, status) ← usb_get_hub_status h dev (record (storage.tmpbuf) { bytes = bytes })
        if is_negative ret then pure minus_one else (do usb_hub_power_on h dev; pure (pos 0)))
    ]

  pub usb_hub_init : ℕ → M State ℤ
  unfolding adopt_hub
  usb_hub_init dev = do
    (ret, bytes) ← usb_get_hub_descriptor h dev (storage.tmpbuf) 4
    if is_negative ret || ltb usb_bufsiz (byte_at bytes 0) then pure minus_one else (do
      (ret', bytes') ←
          usb_get_hub_descriptor h dev (record (storage.tmpbuf) { bytes = bytes }) (byte_at bytes 0)
      if is_negative ret' then pure minus_one else adopt_hub dev bytes')
