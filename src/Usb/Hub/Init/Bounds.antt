-- ===== src/Usb/Hub/Init/Bounds.antt =====
-- Which hub descriptors usb_hub_init can store.
use pure_usb.Prelude.{
  ℕ, ◌+◌, ◌/◌, ◌<◌, ◌≤◌, ◌≡◌, ◌∙◌, leb, Bool-cases, List, [], ◌∷◌, none, some, take, drop, length,
  length-take, length-drop, arith, ◌⊎◌, inl, inr,
}
use pure_usb.Defs.{usb_bufsiz}
use pure_usb.Device.Bytes.{byte_at, overlay, length-overlay, byte_at-overlay_outside}
use pure_usb.Device.Layout.{
  b_nbr_ports, w_hub_characteristics, device_removable, port_power_ctrl_mask, hub_descriptor_size,
}
use pure_usb.Usb.Hub.Init.{copy_bytes, adopt_descriptor}
use pure_usb.Usb.Hub.Init.Bitmap.{copy_bytes-copied}

at_most_cases : (a b : ℕ) → (a ≤ b) ⊎ (b < a)
at_most_cases a b = elim (Bool-cases (leb a b)) [
  | inl within ↦ inl (ground (arith, within))
  | inr beyond ↦ inr (ground (arith, beyond))
]

copy_bytes-fits :
    (hub : List ℕ) (to : ℕ) (buffer : List ℕ) (from n : ℕ)
    → from + n ≤ length buffer
    → to + n ≤ length hub
    → copy_bytes hub to buffer from n ≡ some (overlay hub to (take n (drop from buffer)))
unfolding copy_bytes
copy_bytes-fits hub to buffer from n read write =
    ground (arith, length-take n (drop from buffer), length-drop from buffer)

copy_bytes-overruns :
    (hub : List ℕ) (to : ℕ) (buffer : List ℕ) (from n : ℕ)
    → length hub < to + n
    → copy_bytes hub to buffer from n ≡ none
unfolding copy_bytes
copy_bytes-overruns hub to buffer from n over =
    ground (arith, length-take n (drop from buffer), length-drop from buffer)

-- The two bitmaps go into a descriptor of 11 bytes exactly when it has at most 31 ports.
bitmaps-bounds :
    (hub buffer : List ℕ)
    → length hub ≡ 11
    → length buffer ≡ usb_bufsiz
    → let n = (byte_at hub b_nbr_ports + 8) / 8 in
      ((byte_at hub b_nbr_ports ≤ 31)
        × (half : List ℕ) × (copy_bytes hub device_removable buffer device_removable n ≡ some half)
        × (ys : List ℕ) × (copy_bytes half device_removable buffer port_power_ctrl_mask n
            ≡ some ys))
      ⊎ ((31 < byte_at hub b_nbr_ports)
          × (copy_bytes hub device_removable buffer device_removable n ≡ none))
bitmaps-bounds hub buffer l m =
    let n = (byte_at hub b_nbr_ports + 8) / 8 in
    elim (at_most_cases (byte_at hub b_nbr_ports) 31) [
      | inl few ↦
          let first = take n (drop device_removable buffer) in
          let half = overlay hub device_removable first in
          let l' : length half ≡ 11 = length-overlay hub device_removable first ∙ l in
          inl (
            few,
            half,
            copy_bytes-fits hub device_removable buffer device_removable n (omega (arith, few, m))
                (omega (arith, few, l)),
            overlay half device_removable (take n (drop port_power_ctrl_mask buffer)),
            copy_bytes-fits half device_removable buffer port_power_ctrl_mask n
                (omega (arith, few, m)) (omega (arith, few, l')),
          )
      | inr many ↦ inr (
        many,
        copy_bytes-overruns hub device_removable buffer device_removable n (omega (arith, many, l)),
      )
    ]

-- usb_hub_init, with its buffer of USB_BUFSIZ bytes, stores a descriptor whose length covers its number
-- of ports exactly when the length is at most 11, the size of struct usb_hub_descriptor, and the hub has at
-- most 31 ports; any other descriptor is written behind the end of the struct.
pub adopt_descriptor-bounds :
    (hub buffer : List ℕ)
    → length hub ≡ hub_descriptor_size
    → length buffer ≡ usb_bufsiz
    → 3 ≤ byte_at buffer 0
    → ((byte_at buffer 0 ≤ 11)
        × (byte_at buffer b_nbr_ports ≤ 31)
        × (ys : List ℕ) × (adopt_descriptor hub buffer ≡ some ys))
      ⊎ (((11 < byte_at buffer 0) ⊎ (31 < byte_at buffer b_nbr_ports))
          × (adopt_descriptor hub buffer ≡ none))
unfolding adopt_descriptor
adopt_descriptor-bounds hub buffer l m covers = elim (at_most_cases (byte_at buffer 0) 11) [
  | inr long ↦ inr (
    inl long,
    ground (arith, copy_bytes-overruns hub 0 buffer 0 (byte_at buffer 0) (omega (arith, long, l))),
  )
  | inl short ↦
      let h1 = overlay hub 0 (take (byte_at buffer 0) (drop 0 buffer)) in
      let e1 : copy_bytes hub 0 buffer 0 (byte_at buffer 0) ≡ some h1 =
        copy_bytes-fits hub 0 buffer 0 (byte_at buffer 0) (omega (arith, short, m))
          (omega (arith, short, l)) in
      let x2 =
        byte_at buffer w_hub_characteristics ∷ byte_at buffer (w_hub_characteristics + 1) ∷ [] in
      let xf : List ℕ = 0xff ∷ 0xff ∷ [] in
      let h2 = overlay h1 w_hub_characteristics x2 in
      let h3 = overlay h2 device_removable xf in
      let h4 = overlay h3 port_power_ctrl_mask xf in
      let ports : byte_at h4 b_nbr_ports ≡ byte_at buffer b_nbr_ports =
        byte_at-overlay_outside h3 port_power_ctrl_mask xf b_nbr_ports (inl (omega arith))
        ∙ byte_at-overlay_outside h2 device_removable xf b_nbr_ports (inl (omega arith))
        ∙ byte_at-overlay_outside h1 w_hub_characteristics x2 b_nbr_ports (inl (omega arith))
        ∙ copy_bytes-copied hub 0 buffer 0 (byte_at buffer 0) b_nbr_ports e1
            (omega (arith, covers)) in
      let l4 : length h4 ≡ 11 =
        length-overlay h3 port_power_ctrl_mask xf
        ∙ length-overlay h2 device_removable xf
        ∙ length-overlay h1 w_hub_characteristics x2
        ∙ length-overlay hub 0 (take (byte_at buffer 0) (drop 0 buffer))
        ∙ l in
      elim (bitmaps-bounds h4 buffer l4 m) [
        | inl (few, h5, e5, ys, e6) ↦
            inl (short, omega (arith, ports, few), ys, ground (arith, e1, e5, e6))
        | inr (many, e5) ↦ inr (inr (omega (arith, ports, many)), ground (arith, e1, e5))
      ]
]
