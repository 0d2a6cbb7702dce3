-- ===== src/Usb/Hub/Init/Table.antt =====
-- usb_hub_init leaves the links of the device table as they are.
use pure_usb.Prelude.{
  ℕ, pos, minus_one, is_negative, if◌then◌else◌, ◌+◌, ◌/◌, ◌≡◌, refl, List, [], ◌∷◌, some, arith,
  Option-cases, inl, inr, length,
}
use pure_usb.Device.Bytes.{byte_at, read_bytes, overlay, length-overlay, length-write_bytes}
use pure_usb.Device.Layout.{
  b_nbr_ports, w_hub_characteristics, device_removable, port_power_ctrl_mask,
}
use pure_usb.Host.{Host}
use pure_usb.Usb.{pure, ◌>>=◌, ◌>>◌}
use pure_usb.Usb.Keeps.{Keeps, Any, keeps_rules}
use pure_usb.Usb.Table.{Tabled, Conforms, compute_then-Keeps}
use pure_usb.Usb.Hub.{Storage, usb_get_hub_status, usb_hub_power_on}
use pure_usb.Usb.Hub.Table.{
  usb_get_hub_descriptor-Keeps, usb_get_hub_status-Keeps, usb_hub_power_on-Keeps,
}
use pure_usb.Usb.Hub.Init.{copy_bytes, adopt_descriptor, adopt_hub, usb_hub_init}

length-copy_bytes :
    (hub : List ℕ) (to : ℕ) (buffer : List ℕ) (from n : ℕ) {ys : List ℕ}
    → copy_bytes hub to buffer from n ≡ some ys
    → length ys ≡ length hub
unfolding copy_bytes
length-copy_bytes hub to buffer from n {ys} e = elim (Option-cases (read_bytes buffer from n)) [
  | inl gone ↦ ground (arith, gone)
  | inr (src, r) ↦ length-write_bytes hub to src {ys = ys} (ground (arith, r, e))
]

length-adopt_descriptor :
    (hub buffer : List ℕ) {ys : List ℕ}
    → adopt_descriptor hub buffer ≡ some ys
    → length ys ≡ length hub
unfolding adopt_descriptor
length-adopt_descriptor hub buffer {ys} e =
    elim (Option-cases (copy_bytes hub 0 buffer 0 (byte_at buffer 0))) [
      | inl gone ↦ ground (arith, gone)
      | inr (h1, e1) ↦
          let h2 = overlay h1 w_hub_characteristics (
            byte_at buffer w_hub_characteristics
            ∷ byte_at buffer (w_hub_characteristics + 1)
            ∷ []) in
          let h3 = overlay h2 device_removable (0xff ∷ 0xff ∷ []) in
          let h4 = overlay h3 port_power_ctrl_mask (0xff ∷ 0xff ∷ []) in
          let n = (byte_at h4 b_nbr_ports + 8) / 8 in
          elim (Option-cases (copy_bytes h4 device_removable buffer device_removable n)) [
            | inl gone ↦ ground (arith, e1, gone)
            | inr (h5, e5) ↦ ground (
              arith,
              e1,
              e5,
              length-copy_bytes hub 0 buffer 0 (byte_at buffer 0) e1,
              length-overlay h1 w_hub_characteristics (
                  byte_at buffer w_hub_characteristics
                  ∷ byte_at buffer (w_hub_characteristics + 1)
                  ∷ []),
              length-overlay h2 device_removable (0xff ∷ 0xff ∷ []),
              length-overlay h3 port_power_ctrl_mask (0xff ∷ 0xff ∷ []),
              length-copy_bytes h4 device_removable buffer device_removable n e5,
              length-copy_bytes h5 device_removable buffer port_power_ctrl_mask n {ys = ys},
            )
          ]
    ]

module _ (h : Host) (conforms : Conforms h) (storage : Storage) (used : ℕ) where
  open h use {State}

  adopt_hub-Keeps :
      (dev : ℕ) (bytes : List ℕ) → Keeps (Tabled used) (adopt_hub h storage dev bytes) Any
  unfolding adopt_hub
  adopt_hub-Keeps dev bytes =
      compute_then-Keeps used dev (λ d. adopt_descriptor d.hubdescriptor bytes)
        (λ d descriptor. record d {
          hubdescriptor = descriptor;
          maxchild = byte_at bytes b_nbr_ports;
        })
        (λ d descriptor. (do
          (ret, status) ← usb_get_hub_status h dev (record (storage.tmpbuf) { bytes = bytes })
          if is_negative ret then pure minus_one else (do usb_hub_power_on h dev; pure (pos 0))))
        (λ d descriptor made. record {
          parent = refl;
          children = refl;
          same_sizes = simp (length-adopt_descriptor d.hubdescriptor bytes made) refl;
        })
        (λ d descriptor. search (
          keeps_rules,
          usb_get_hub_status-Keeps h conforms used,
          usb_hub_power_on-Keeps h conforms used,
        ))

  pub usb_hub_init-Keeps : (dev : ℕ) → Keeps (Tabled used) (usb_hub_init h storage dev) Any
  unfolding usb_hub_init
  usb_hub_init-Keeps dev =
      search (keeps_rules, usb_get_hub_descriptor-Keeps h conforms used, adopt_hub-Keeps)
