-- ===== src/Usb/MaxPacket.antt =====
-- The largest packet of each endpoint: usb_maxpacket, usb_set_maxpacket of usb.c.
pub mod Laws
pub mod Size
use pure_usb.Prelude.{
  ℕ, zero, suc, ◌+◌, ◌==◌, ltb, Option, none, some, get_or, set, if◌then◌else◌, bit_and, shr, not,
}
use pure_usb.Defs.{
  usb_dir_in, usb_endpoint_number_mask, usb_endpoint_xfertype_mask, usb_endpoint_xfer_control,
}
use pure_usb.Device.{Device}
use pure_usb.Device.Bytes.{byte_at, le16_at, read_byte}
use pure_usb.Device.Layout.{
  b_num_interfaces, if_desc, b_num_endpoints, ep_desc, b_endpoint_address, bm_attributes,
  w_max_packet_size,
}

abbrev pub usb_maxpacket : Device → ℕ → ℕ
usb_maxpacket dev pipe =
    if bit_and pipe usb_dir_in == 0
    then get_or dev.epmaxpacketout (bit_and (shr pipe 15) 0xf) 0
    else get_or dev.epmaxpacketin (bit_and (shr pipe 15) 0xf) 0

-- The endpoint descriptor is the one at offset `ep` of the device's configuration.
pub usb_set_maxpacket_ep : Device → ℕ → Device
usb_set_maxpacket_ep dev ep =
    let address = byte_at dev.config (ep + b_endpoint_address) in
    let size = le16_at dev.config (ep + w_max_packet_size) in
    let b = bit_and address usb_endpoint_number_mask in
    if bit_and (byte_at dev.config (ep + bm_attributes)) usb_endpoint_xfertype_mask
      == usb_endpoint_xfer_control
    then record dev {
      epmaxpacketout = set dev.epmaxpacketout b size;
      epmaxpacketin = set dev.epmaxpacketin b size;
    }
    else if bit_and address 0x80 == 0
    then (if ltb (get_or dev.epmaxpacketout b 0) size
        then record dev { epmaxpacketout = set dev.epmaxpacketout b size }
        else dev)
    else if ltb (get_or dev.epmaxpacketin b 0) size
    then record dev { epmaxpacketin = set dev.epmaxpacketin b size }
    else dev

-- `left` endpoints of interface `i` from number `ii` on; `none` is a read past the configuration
pub set_endpoints : ℕ → ℕ → ℕ → Device → Option Device
unfolding usb_set_maxpacket_ep
set_endpoints zero i ii dev = some dev
set_endpoints (suc left) i ii dev =
    let at = if_desc i + ep_desc ii in
    let rest = set_endpoints left i (ii + 1) (usb_set_maxpacket_ep dev at) in
    elim (read_byte dev.config (at + w_max_packet_size + 1)) [ none ↦ none | some last ↦ rest ]

pub set_interfaces : ℕ → ℕ → Device → Option Device
unfolding set_endpoints
set_interfaces zero i dev = some dev
set_interfaces (suc left) i dev = elim (read_byte dev.config (if_desc i + b_num_endpoints)) [
  | none ↦ none
  | some endpoints ↦ elim (set_endpoints endpoints i 0 dev) [
    | none ↦ none
    | some dev' ↦ set_interfaces left (i + 1) dev'
  ]
]

unfoldable pub usb_set_maxpacket : Device → Option Device
unfolding set_interfaces
usb_set_maxpacket dev = set_interfaces (byte_at dev.config b_num_interfaces) 0 dev
