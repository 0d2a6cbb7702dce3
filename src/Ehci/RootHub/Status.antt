-- ===== src/Ehci/RootHub/Status.antt =====
-- The port status that the root hub reports, against the port register.
use pure_usb.Prelude.{ℕ, ◌≡◌, refl, true, false, List, length, has_bits, shl, arith}
use pure_usb.Defs.{
  usb_port_stat_connection, usb_port_stat_enable, usb_port_stat_suspend, usb_port_stat_overcurrent,
  usb_port_stat_reset, usb_port_stat_power, usb_port_stat_low_speed, usb_port_stat_high_speed,
  usb_port_stat_c_connection, usb_port_stat_c_enable, usb_port_stat_c_overcurrent,
  usb_port_stat_c_reset,
}
use pure_usb.Device.Bytes.{le16_at}
use pure_usb.Ehci.Regs.{
  ehci_ps_pp, ehci_ps_pr, ehci_ps_susp, ehci_ps_occ, ehci_ps_oca, ehci_ps_pec, ehci_ps_pe,
  ehci_ps_csc, ehci_ps_cs,
}
use pure_usb.Ehci.RootHub.{port_status}

-- how a hub client reads the answer: `wPortStatus` and `wPortChange`
pub record Reports (answer : List ℕ) (reg portreset index : ℕ) : Type 0 where
  pub connection : has_bits (le16_at answer 0) usb_port_stat_connection ≡ has_bits reg ehci_ps_cs
  pub enable : has_bits (le16_at answer 0) usb_port_stat_enable ≡ has_bits reg ehci_ps_pe
  pub suspend : has_bits (le16_at answer 0) usb_port_stat_suspend ≡ has_bits reg ehci_ps_susp
  pub overcurrent : has_bits (le16_at answer 0) usb_port_stat_overcurrent ≡ has_bits reg ehci_ps_oca
  pub reset : has_bits (le16_at answer 0) usb_port_stat_reset ≡ has_bits reg ehci_ps_pr
  pub power : has_bits (le16_at answer 0) usb_port_stat_power ≡ has_bits reg ehci_ps_pp
  pub low_speed : has_bits (le16_at answer 0) usb_port_stat_low_speed ≡ false
  pub high_speed : has_bits (le16_at answer 0) usb_port_stat_high_speed ≡ true
  pub c_connection :
      has_bits (le16_at answer 2) usb_port_stat_c_connection ≡ has_bits reg ehci_ps_csc
  pub c_enable : has_bits (le16_at answer 2) usb_port_stat_c_enable ≡ has_bits reg ehci_ps_pec
  pub c_overcurrent :
      has_bits (le16_at answer 2) usb_port_stat_c_overcurrent ≡ has_bits reg ehci_ps_occ
  pub c_reset : has_bits (le16_at answer 2) usb_port_stat_c_reset ≡ has_bits portreset (shl 1 index)

-- The port status that the root hub sends reports, bit for bit, the port register and the recorded
-- reset, except that it always claims a high-speed device and never a low-speed one.
pub port_status-Reports :
    (reg portreset index : ℕ) → Reports (port_status reg portreset index) reg portreset index
unfolding port_status
port_status-Reports reg portreset index = record {
  connection = ground arith;
  enable = ground arith;
  suspend = ground arith;
  overcurrent = ground arith;
  reset = ground arith;
  power = ground arith;
  low_speed = ground arith;
  high_speed = ground arith;
  c_connection = ground arith;
  c_enable = ground arith;
  c_overcurrent = ground arith;
  c_reset = ground arith;
}

pub length-port_status : (reg portreset index : ℕ) → length (port_status reg portreset index) ≡ 4
unfolding port_status
length-port_status reg portreset index = refl
