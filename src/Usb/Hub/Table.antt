-- ===== src/Usb/Hub/Table.antt =====
-- The hub requests and the port reset leave the links of the device table as they are.
use pure_usb.Prelude.{ℕ, zero, suc, ℤ, ◌+◌, ◌*◌, Bool, arith, Option-cases, inl, inr, get_elem?}
use pure_usb.Defs.{usb_port_feat_power, usb_port_feat_reset}
use pure_usb.Device.{Buffer}
use pure_usb.Device.Bytes.{byte_at, le16_at}
use pure_usb.Device.Layout.{b_pwr_on_2_pwr_good}
use pure_usb.Host.{Host}
use pure_usb.Usb.{M}
use pure_usb.Usb.Keeps.{Keeps, Any, Keeps-then, returned, keeps_rules}
use pure_usb.Usb.Table.{Tabled, Conforms, get_dev-Keeps}
use pure_usb.Usb.Message.Table.{wait_ms-Keeps}
use pure_usb.Usb.Request.Table.{send_control-Keeps, receive_control-Keeps}
use pure_usb.Usb.Hub.{
  child_of, usb_get_hub_descriptor, usb_clear_port_feature, usb_set_port_feature,
  usb_get_hub_status, usb_get_port_status, power_ports, usb_hub_power_on, round_result, reset_tries,
  hub_port_reset,
}

pub child_of-Keeps :
    {S : Type 0} (used dev port : ℕ) → Keeps {S = S} (Tabled used) (child_of dev port) Any
unfolding child_of
child_of-Keeps used dev port = Keeps-then _ _ (get_dev-Keeps used dev) λ d. record {
  at = λ w a w' t e. elim (Option-cases (get_elem? d.children port)) [
    | inl gone ↦ ground (arith, gone, e)
    | inr (c, here) ↦
        returned (Tabled used) Any {b = c} {a = a} {v = w} {w' = w'} (ground (arith, here, e)) t tt
  ];
}

module _ (h : Host) (conforms : Conforms h) (used : ℕ) where
  open h use {State}

  pub usb_get_hub_descriptor-Keeps :
      (dev : ℕ) (buffer : Buffer) (size : ℕ)
      → Keeps (Tabled used) (usb_get_hub_descriptor h dev buffer size) Any
  unfolding usb_get_hub_descriptor
  usb_get_hub_descriptor-Keeps dev buffer size = search (receive_control-Keeps h conforms used)

  pub usb_clear_port_feature-Keeps :
      (dev port feature : ℕ) → Keeps (Tabled used) (usb_clear_port_feature h dev port feature) Any
  unfolding usb_clear_port_feature
  usb_clear_port_feature-Keeps dev port feature = search (send_control-Keeps h conforms used)

  usb_set_port_feature-Keeps :
      (dev port feature : ℕ) → Keeps (Tabled used) (usb_set_port_feature h dev port feature) Any
  unfolding usb_set_port_feature
  usb_set_port_feature-Keeps dev port feature = search (send_control-Keeps h conforms used)

  pub usb_get_hub_status-Keeps :
      (dev : ℕ) (buffer : Buffer) → Keeps (Tabled used) (usb_get_hub_status h dev buffer) Any
  unfolding usb_get_hub_status
  usb_get_hub_status-Keeps dev buffer = search (receive_control-Keeps h conforms used)

  pub usb_get_port_status-Keeps :
      (dev port : ℕ) (buffer : Buffer)
      → Keeps (Tabled used) (usb_get_port_status h dev port buffer) Any
  unfolding usb_get_port_status
  usb_get_port_status-Keeps dev port buffer = search (receive_control-Keeps h conforms used)

  power_ports-Keeps : (left i dev : ℕ) → Keeps (Tabled used) (power_ports h left i dev) Any
  unfolding power_ports
  power_ports-Keeps zero i dev = search keeps_rules
  power_ports-Keeps (suc left) i dev =
      Keeps-then _ _ (usb_set_port_feature-Keeps dev (i + 1) usb_port_feat_power) λ _.
        Keeps-then _ _ (get_dev-Keeps used dev) λ d.
          Keeps-then _ _
            (wait_ms-Keeps h conforms used (byte_at d.hubdescriptor b_pwr_on_2_pwr_good * 2))
            λ _. power_ports-Keeps left (i + 1) dev

  pub usb_hub_power_on-Keeps : (dev : ℕ) → Keeps (Tabled used) (usb_hub_power_on h dev) Any
  unfolding usb_hub_power_on
  usb_hub_power_on-Keeps dev = search (keeps_rules, get_dev-Keeps, power_ports-Keeps)

  round_result-Keeps :
      (again : M State (ℤ × ℕ)) (dev port portstatus portchange : ℕ) (refused : Bool)
      → Keeps (Tabled used) again Any
      → Keeps (Tabled used) (round_result h again dev port portstatus portchange refused) Any
  unfolding round_result
  round_result-Keeps again dev port portstatus portchange refused k =
      search (keeps_rules, usb_clear_port_feature-Keeps, wait_ms-Keeps h conforms used)

  reset_tries-Keeps :
      (left dev port : ℕ) (portsts : Buffer)
      → Keeps (Tabled used) (reset_tries h left dev port portsts) Any
  unfolding reset_tries
  reset_tries-Keeps zero dev port portsts = search keeps_rules
  reset_tries-Keeps (suc left) dev port portsts =
      Keeps-then _ _ (usb_set_port_feature-Keeps dev (port + 1) usb_port_feat_reset) λ _.
        Keeps-then _ _ (wait_ms-Keeps h conforms used 200) λ _.
          Keeps-then _ _ (usb_get_port_status-Keeps dev (port + 1) portsts) λ r.
            round_result-Keeps (reset_tries h left dev port (record portsts { bytes = r.1 })) dev
              port (le16_at r.1 0) (le16_at r.1 2) _
              (reset_tries-Keeps left dev port (record portsts { bytes = r.1 }))

  pub hub_port_reset-Keeps :
      (portsts : Buffer) (dev port : ℕ)
      → Keeps (Tabled used) (hub_port_reset h portsts dev port) Any
  unfolding hub_port_reset
  hub_port_reset-Keeps portsts dev port = search reset_tries-Keeps
