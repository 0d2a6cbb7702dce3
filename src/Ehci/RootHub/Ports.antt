-- ===== src/Ehci/RootHub/Ports.antt =====
-- The requests that change a port: its reset, and the changes that a client clears.
use pure_usb.Prelude.{
  ℕ, ◌≤◌, ◌≡◌, pos, minus_one, Bool, some, bit_and, bit_or, has_bits, shl, complement, arith,
}
use pure_usb.Defs.{usb_st_stalled, usb_port_feat_c_over_current}
use pure_usb.Device.{Device, Buffer}
use pure_usb.Ehci.{Controller, Ehci, ehci_readl, ehci_writel, mdelay}
use pure_usb.Ehci.Regs.{or_portsc, ehci_ps_pr, ehci_ps_pe}
use pure_usb.Ehci.RootHub.{ehci_submit_root}

-- whether a reset of port `index` is recorded, as the port status tests it
abbrev pub reset_recorded : ℕ → ℕ → Bool
reset_recorded portreset index = has_bits portreset (shl 1 index)

module _ (c : Controller) (index : ℕ) where
  open c use {State}

  -- the driver's state when `reset_port` starts its handshake: the port register was written with
  -- the reset bit, and 50 ms later without it
  abbrev pub reset_pulsed : ℕ → Ehci State → Ehci State
  reset_pulsed reg e =
      let reset = bit_and (bit_or reg ehci_ps_pr) (complement ehci_ps_pe) in
      (ehci_writel c (or_portsc index) (bit_and reset (complement ehci_ps_pr))
        (mdelay c 50 (ehci_writel c (or_portsc index) reset e).1).1).1

-- The request by which the hub driver clears an over-current change is unknown to the root hub,
-- whichever of its two ports it names: it fails with -1, leaves the device stalled, and the port
-- register is read but not written.
pub clear_over_current-stalls :
    (c : Controller) (dev : Device) (buffer : Buffer) (len index length' : ℕ) (e : Ehci c.State)
    → index ≤ 2
    → ehci_submit_root c dev buffer len
        (record {
          requesttype = 0x23;
          request = 1;
          value = usb_port_feat_c_over_current;
          index = index;
          length = length';
        })
        e
      ≡ (
        some (minus_one, record dev { act_len = pos 0; status = usb_st_stalled }, buffer.bytes),
        (ehci_readl c (or_portsc index) e).1,
      )
unfolding ehci_submit_root
clear_over_current-stalls c dev buffer len index length' e h = ground arith
