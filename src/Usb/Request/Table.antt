-- ===== src/Usb/Request/Table.antt =====
-- The requests of usb.c leave the links of the device table as they are.
use pure_usb.Prelude.{
  ℕ, zero, suc, ℤ, pos, refl, List, Option, none, some, set, length-set, ◌+◌, ◌*◌, ◌==◌,
  is_negative, if◌then◌else◌,
}
use pure_usb.Defs.{usb_cntl_timeout, usb_recip_interface, usb_req_set_interface}
use pure_usb.Device.Bytes.{byte_at}
use pure_usb.Device.Layout.{if_desc, num_altsetting}
use pure_usb.Device.{Device, Buffer}
use pure_usb.Pipe.{usb_settoggle, usb_endpoint_running}
use pure_usb.Host.{Host}
use pure_usb.Usb.{pure, ◌>>=◌, get_dev}
use pure_usb.Usb.Keeps.{Keeps, Any, Keeps-if, Keeps-then, Keeps-done, keeps_rules}
use pure_usb.Usb.Table.{Updates, Tabled, Conforms, get_dev-Keeps, update_then-Keeps}
use pure_usb.Usb.Message.Table.{usb_control_msg-Keeps}
use pure_usb.Usb.Request.{
  null, send_control, receive_control, usb_get_descriptor, configuration_header,
  usb_get_configuration_no, usb_set_address, set_interface_of, usb_set_interface,
  usb_set_configuration, usb_clear_halt, string_tries, usb_get_string,
}

settoggle-Updates :
    (d : Device) (ep out bit : ℕ)
    → Updates d (usb_settoggle (usb_endpoint_running d ep out) ep out bit)
unfolding usb_settoggle usb_endpoint_running
settoggle-Updates d ep out bit = record {
  parent = refl;
  children = refl;
  same_sizes = simp length-set refl;
}

toggles-Updates : (d : Device) → Updates d (record d { toggle = set (set d.toggle 0 0) 1 0 })
toggles-Updates d = record { parent = refl; children = refl; same_sizes = simp length-set refl }

module _ (h : Host) (conforms : Conforms h) (used : ℕ) where
  open h use {State}

  pub send_control-Keeps :
      (dev request requesttype value index : ℕ) (buffer : Buffer) (size timeout : ℕ)
      → Keeps
          (Tabled used)
          (send_control h dev request requesttype value index buffer size timeout)
          Any
  send_control-Keeps dev request requesttype value index buffer size timeout =
      search (keeps_rules, get_dev-Keeps, usb_control_msg-Keeps h conforms used)

  pub receive_control-Keeps :
      (dev request requesttype value index : ℕ) (buffer : Buffer) (size timeout : ℕ)
      → Keeps
          (Tabled used)
          (receive_control h dev request requesttype value index buffer size timeout)
          Any
  receive_control-Keeps dev request requesttype value index buffer size timeout =
      search (keeps_rules, get_dev-Keeps, usb_control_msg-Keeps h conforms used)

  pub usb_get_descriptor-Keeps :
      (dev type index : ℕ) (buffer : Buffer) (size : ℕ)
      → Keeps (Tabled used) (usb_get_descriptor h dev type index buffer size) Any
  unfolding usb_get_descriptor
  usb_get_descriptor-Keeps dev type index buffer size = search (receive_control-Keeps)

  configuration_header-Keeps :
      (dev cfgno : ℕ) (buffer : Buffer) (r : ℤ × List ℕ)
      → Keeps (Tabled used) (configuration_header h dev cfgno buffer r) Any
  unfolding configuration_header
  configuration_header-Keeps dev cfgno buffer (result, bytes) =
      search (keeps_rules, usb_get_descriptor-Keeps)

  pub usb_get_configuration_no-Keeps :
      (dev : ℕ) (buffer : Buffer) (cfgno : ℕ)
      → Keeps (Tabled used) (usb_get_configuration_no h dev buffer cfgno) Any
  unfolding usb_get_configuration_no
  usb_get_configuration_no-Keeps dev buffer cfgno =
      search (keeps_rules, usb_get_descriptor-Keeps, configuration_header-Keeps)

  pub usb_set_address-Keeps : (dev : ℕ) → Keeps (Tabled used) (usb_set_address h dev) Any
  unfolding usb_set_address
  usb_set_address-Keeps dev =
      search (keeps_rules, get_dev-Keeps, usb_control_msg-Keeps h conforms used)

  set_interface_of-Keeps :
      (dev interface alternate : ℕ) (found : Option (Option ℕ))
      → Keeps (Tabled used) (set_interface_of h dev interface alternate found) Any
  unfolding set_interface_of
  set_interface_of-Keeps dev interface alternate none = record { at = λ w a w' t e. cc }
  set_interface_of-Keeps dev interface alternate (some none) = search keeps_rules
  set_interface_of-Keeps dev interface alternate (some (some i)) =
      let sent : Keeps (Tabled used)
          (do
            d ← get_dev dev
            if byte_at d.config (if_desc i + num_altsetting) == 1 then pure (pos 0) else (do
              (ret, bytes) ←
                  send_control h dev usb_req_set_interface usb_recip_interface alternate interface
                    null 0 (usb_cntl_timeout * 5)
              if is_negative ret then pure ret else pure (pos 0)))
          Any =
        search (keeps_rules, get_dev-Keeps, send_control-Keeps) in
      record { at = sent.at }

  pub usb_set_interface-Keeps :
      (dev interface alternate : ℕ)
      → Keeps (Tabled used) (usb_set_interface h dev interface alternate) Any
  unfolding usb_set_interface
  usb_set_interface-Keeps dev interface alternate =
      search (keeps_rules, get_dev-Keeps, set_interface_of-Keeps)

  pub usb_set_configuration-Keeps :
      (dev configuration : ℕ) → Keeps (Tabled used) (usb_set_configuration h dev configuration) Any
  unfolding usb_set_configuration
  usb_set_configuration-Keeps dev configuration =
      search (update_then-Keeps, keeps_rules, toggles-Updates, send_control-Keeps)

  pub usb_clear_halt-Keeps : (dev pipe : ℕ) → Keeps (Tabled used) (usb_clear_halt h dev pipe) Any
  unfolding usb_clear_halt
  usb_clear_halt-Keeps dev pipe =
      search (update_then-Keeps, keeps_rules, settoggle-Updates, send_control-Keeps)

  string_tries-Keeps :
      (left dev langid index : ℕ) (buffer : Buffer) (size : ℕ)
      → Keeps (Tabled used) (string_tries h left dev langid index buffer size) Any
  unfolding string_tries
  string_tries-Keeps zero dev langid index buffer size = search keeps_rules
  string_tries-Keeps (suc left) dev langid index buffer size =
      Keeps-then _ _ (receive_control-Keeps dev _ _ _ langid buffer size _) λ r.
        Keeps-if _ _ _
          (string_tries-Keeps left dev langid index (record buffer { bytes = r.1 }) size)
          (Keeps-done r)

  pub usb_get_string-Keeps :
      (dev langid index : ℕ) (buffer : Buffer) (size : ℕ)
      → Keeps (Tabled used) (usb_get_string h dev langid index buffer size) Any
  unfolding usb_get_string
  usb_get_string-Keeps dev langid index buffer size = search string_tries-Keeps
