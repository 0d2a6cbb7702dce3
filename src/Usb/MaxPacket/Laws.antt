-- ===== src/Usb/MaxPacket/Laws.antt =====
-- What an endpoint descriptor does to the packet sizes of a device.
use pure_usb.Prelude.{
  ℕ, ◌+◌, ◌<◌, ◌≡◌, ◌==◌, not, Bool, length, get_or, arith, if◌then◌else◌, bit_and, max,
  get_or-set_self, get_or-set_ne,
}
use pure_usb.Defs.{usb_endpoint_number_mask, usb_endpoint_xfertype_mask, usb_endpoint_xfer_control}
use pure_usb.Device.{Device}
use pure_usb.Device.Bytes.{byte_at, le16_at}
use pure_usb.Device.Layout.{b_endpoint_address, bm_attributes, w_max_packet_size}
use pure_usb.Usb.MaxPacket.{usb_set_maxpacket_ep}

-- the number of the endpoint whose descriptor lies at `ep`, the size it gives, and whether it is a
-- control endpoint or one of the given direction
abbrev pub number : Device → ℕ → ℕ
number dev ep = bit_and (byte_at dev.config (ep + b_endpoint_address)) usb_endpoint_number_mask

abbrev pub packet_size : Device → ℕ → ℕ
packet_size dev ep = le16_at dev.config (ep + w_max_packet_size)

abbrev pub is_control : Device → ℕ → Bool
is_control dev ep =
    bit_and (byte_at dev.config (ep + bm_attributes)) usb_endpoint_xfertype_mask
    == usb_endpoint_xfer_control

abbrev pub is_out : Device → ℕ → Bool
is_out dev ep = bit_and (byte_at dev.config (ep + b_endpoint_address)) 0x80 == 0

-- the size of endpoint `k` in one direction after the descriptor, `before` being the size it had
abbrev pub size_after : Device → ℕ → Bool → ℕ → ℕ → ℕ
size_after dev ep affected k before =
    if not (k == number dev ep)
    then before
    else if is_control dev ep
    then packet_size dev ep
    else if affected
    then max before (packet_size dev ep)
    else before

-- An endpoint descriptor sets the packet sizes of its own endpoint and of no other: both directions
-- to its size for a control endpoint, and otherwise its own direction to the larger of its size and
-- the one known before. The endpoint's number must have a size in both directions.
pub usb_set_maxpacket_ep-sizes :
    (dev : Device) (ep k : ℕ)
    → number dev ep < length dev.epmaxpacketout
    → number dev ep < length dev.epmaxpacketin
    → (get_or (usb_set_maxpacket_ep dev ep).epmaxpacketout k 0
        ≡ size_after dev ep (is_out dev ep) k (get_or dev.epmaxpacketout k 0))
      × (get_or (usb_set_maxpacket_ep dev ep).epmaxpacketin k 0
          ≡ size_after dev ep (not (is_out dev ep)) k (get_or dev.epmaxpacketin k 0))
unfolding usb_set_maxpacket_ep
usb_set_maxpacket_ep-sizes dev ep k out_known in_known =
    let n = number dev ep in
    let size = packet_size dev ep in
    (
      ground (
        arith,
        get_or-set_self dev.epmaxpacketout n size 0,
        get_or-set_ne dev.epmaxpacketout n k size 0,
      ),
      ground (
        arith,
        get_or-set_self dev.epmaxpacketin n size 0,
        get_or-set_ne dev.epmaxpacketin n k size 0,
      ),
    )
