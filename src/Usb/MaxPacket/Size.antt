-- ===== src/Usb/MaxPacket/Size.antt =====
-- usb_set_maxpacket writes packet sizes and nothing else.
use pure_usb.Prelude.{
  ℕ, zero, suc, ◌+◌, ◌≡◌, refl, Option-cases, inl, inr, some, length-set, arith, set,
}
use pure_usb.Device.{Device}
use pure_usb.Device.Bytes.{byte_at, read_byte}
use pure_usb.Device.Layout.{b_num_interfaces, if_desc, b_num_endpoints, ep_desc, w_max_packet_size}
use mathlib.Core.Path.{subst}
use pure_usb.Usb.Table.{Updates, Updates-if, Updates-refl, Updates-trans}
use pure_usb.Usb.MaxPacket.{usb_set_maxpacket_ep, set_endpoints, set_interfaces, usb_set_maxpacket}

out_packets-Updates :
    (d : Device) (i size : ℕ)
    → Updates d (record d { epmaxpacketout = set d.epmaxpacketout i size })
out_packets-Updates d i size = record {
  parent = refl;
  children = refl;
  same_sizes = simp length-set refl;
}

in_packets-Updates :
    (d : Device) (i size : ℕ) → Updates d (record d { epmaxpacketin = set d.epmaxpacketin i size })
in_packets-Updates d i size = record {
  parent = refl;
  children = refl;
  same_sizes = simp length-set refl;
}

both_packets-Updates :
    (d : Device) (i size : ℕ)
    → Updates d (record d {
      epmaxpacketout = set d.epmaxpacketout i size;
      epmaxpacketin = set d.epmaxpacketin i size;
    })
both_packets-Updates d i size = record {
  parent = refl;
  children = refl;
  same_sizes = simp length-set refl;
}

set_maxpacket_ep-Updates : (d : Device) (ep : ℕ) → Updates d (usb_set_maxpacket_ep d ep)
unfolding usb_set_maxpacket_ep
set_maxpacket_ep-Updates d ep =
    search (Updates-if, Updates-refl, out_packets-Updates, in_packets-Updates, both_packets-Updates)

set_endpoints-Updates :
    (left i ii : ℕ) (d d' : Device) → set_endpoints left i ii d ≡ some d' → Updates d d'
unfolding set_endpoints
set_endpoints-Updates zero i ii d d' e = subst (Updates d) (ground (arith, e)) (Updates-refl d)
set_endpoints-Updates (suc left) i ii d d' e =
    let at = if_desc i + ep_desc ii in
    elim (Option-cases (read_byte d.config (at + w_max_packet_size + 1))) [
      | inl gone ↦ ground (arith, gone, e)
      | inr (last, here) ↦ Updates-trans (set_maxpacket_ep-Updates d at) (
          set_endpoints-Updates left i (ii + 1) (usb_set_maxpacket_ep d at) d'
            (ground (arith, here, e)))
    ]

set_interfaces-Updates :
    (left i : ℕ) (d d' : Device) → set_interfaces left i d ≡ some d' → Updates d d'
unfolding set_interfaces
set_interfaces-Updates zero i d d' e = subst (Updates d) (ground (arith, e)) (Updates-refl d)
set_interfaces-Updates (suc left) i d d' e =
    elim (Option-cases (read_byte d.config (if_desc i + b_num_endpoints))) [
      | inl gone ↦ ground (arith, gone, e)
      | inr (endpoints, here) ↦ elim (Option-cases (set_endpoints endpoints i 0 d)) [
        | inl gone ↦ ground (arith, here, gone, e)
        | inr (d1, made) ↦
            Updates-trans (set_endpoints-Updates endpoints i 0 d d1 made)
              (set_interfaces-Updates left (i + 1) d1 d' (ground (arith, here, made, e)))
      ]
    ]

pub usb_set_maxpacket-Updates : (d d' : Device) → usb_set_maxpacket d ≡ some d' → Updates d d'
unfolding usb_set_maxpacket
usb_set_maxpacket-Updates d d' e =
    set_interfaces-Updates (byte_at d.config b_num_interfaces) 0 d d' e
