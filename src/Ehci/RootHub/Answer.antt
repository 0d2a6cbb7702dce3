-- ===== src/Ehci/RootHub/Answer.antt =====
-- The root hub's answer to GET_STATUS of a port.
use pure_usb.Prelude.{ℕ, ◌≡◌, ◌≤◌, ltb, leb, false, true, pos, some, length, arith, ◌+◌}
use pure_usb.Device.{Device, DevRequest, Buffer}
use pure_usb.Device.Bytes.{overlay}
use pure_usb.Ehci.{Controller, Ehci, ehci_readl, mdelay}
use pure_usb.Ehci.Regs.{or_portsc, max_root_ports}
use pure_usb.Ehci.RootHub.{port_status, ehci_submit_root, root_copy, get_port_status}

module _ (c : Controller) where
  open c use {State}

  -- the setup packet of the request
  abbrev pub status_request : ℕ → DevRequest
  status_request port = record {
    requesttype = 0xa3;
    request = 0;
    value = 0;
    index = port;
    length = 4;
  }

  -- the register that is read for it
  abbrev pub port_register : ℕ → Ehci State → ℕ
  port_register port e = (ehci_readl c (or_portsc port) e).0

  abbrev pub answered : Device → Device
  answered d = record d { act_len = pos 4; status = 0 }

  copied :
      (reg portreset port : ℕ) (d : Device) (buffer : Buffer) (e : Ehci State)
      → 4 ≤ length buffer.bytes
      → root_copy c d buffer 4 4 (some (some (port_status reg portreset port))) e ≡ (
        some (pos 0, answered d, overlay buffer.bytes 0 (port_status reg portreset port)),
        (mdelay c 1 e).1,
      )
  unfolding root_copy port_status mdelay
  copied reg portreset port d buffer e room =
      let fits : leb (0 + 4) (length buffer.bytes) ≡ true = ground arith in rw fits

  pub ehci_submit_root-port_status :
      (port : ℕ) (d : Device) (buffer : Buffer) (e : Ehci State)
      → port ≤ 2
      → 4 ≤ length buffer.bytes
      → ehci_submit_root c d buffer 4 (status_request port) e ≡ (
        some (
          pos 0,
          answered d,
          overlay buffer.bytes 0 (port_status (port_register port e) e.portreset port),
        ),
        (mdelay c 1 (ehci_readl c (or_portsc port) e).1).1,
      )
  unfolding ehci_submit_root get_port_status ehci_readl
  ehci_submit_root-port_status port d buffer e h room =
      let inside : ltb max_root_ports port ≡ false = ground arith in
      rw inside (copied (port_register port e) e.portreset port d buffer _ room)
