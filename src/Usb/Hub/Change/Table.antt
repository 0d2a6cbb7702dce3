-- ===== src/Usb/Hub/Change/Table.antt =====
-- A change at a hub's port keeps the device table.
use pure_usb.Prelude.{
  ℕ, ◌<◌, ℤ, pos, minus_one, is_negative, Bool, Option, none, some, if◌then◌else◌,
}
use pure_usb.Host.{Host}
use pure_usb.Usb.{M, pure, ◌>>=◌, ◌>>◌, get_dev, put_dev}
use pure_usb.Usb.Keeps.{Keeps, Any, Keeps-then, Keeps-done, keeps_rules}
use pure_usb.Usb.Table.{Tabled, Conforms, update_then-Keeps}
use pure_usb.Usb.Message.Table.{wait_ms-Keeps}
use pure_usb.Usb.Devices.Table.{usb_alloc_new_device-Keeps}
use pure_usb.Usb.Hub.{Storage}
use pure_usb.Usb.Hub.Table.{
  child_of-Keeps, usb_get_port_status-Keeps, usb_clear_port_feature-Keeps, hub_port_reset-Keeps,
  usb_hub_power_on-Keeps,
}
use pure_usb.Usb.Scan.{usb_scan_device}
use pure_usb.Usb.Scan.Updates.{speed-Updates}
use pure_usb.Usb.Scan.Table.{usb_scan_device-Keeps}
use pure_usb.Usb.Hub.Change.{
  port_speed, disconnects, attach_device, reset_and_attach, usb_hub_port_connect_change,
  scan_connection, scan_enable, clear_change, power_after, scan_changes, scan_on, usb_hub_scan,
}

module _ (h : Host) (conforms : Conforms h) (storage : Storage) (used dev : ℕ)
    (assigned : dev < used) where
  open h use {State}

  disconnects-Keeps :
      (port portstatus : ℕ) → Keeps (Tabled used) (disconnects h storage dev port portstatus) Any
  unfolding disconnects
  disconnects-Keeps port portstatus = search (keeps_rules, child_of-Keeps)

  attach_device-Keeps :
      (port portstatus : ℕ) → Keeps (Tabled used) (attach_device h storage dev port portstatus) Any
  unfolding attach_device
  attach_device-Keeps port portstatus =
      Keeps-then _ _ (usb_alloc_new_device-Keeps used (some dev) port assigned) attached
    where
      attached :
          (usb : Option ℕ)
          → Keeps {S = State} {A = ℤ × Option ℕ}
              (Tabled used)
              (elim usb [
                | none ↦ pure (minus_one, none)
                | some new ↦ (do
                  d ← get_dev new
                  put_dev new (record d { speed = port_speed portstatus })
                  ret ← usb_scan_device h storage new
                  pure (if is_negative ret then (ret, none) else (pos 1, some new)))
              ])
              Any
      attached none = Keeps-done (minus_one, none)
      attached (some new) = search (
        update_then-Keeps,
        speed-Updates,
        keeps_rules,
        usb_scan_device-Keeps h conforms storage used,
      )

  reset_and_attach-Keeps :
      (port : ℕ) → Keeps (Tabled used) (reset_and_attach h storage dev port) Any
  unfolding reset_and_attach
  reset_and_attach-Keeps port =
      search
        (
          keeps_rules,
          wait_ms-Keeps h conforms used,
          hub_port_reset-Keeps h conforms used,
          attach_device-Keeps,
        )
        depth 12

  connect_change-Keeps :
      (port : ℕ) → Keeps (Tabled used) (usb_hub_port_connect_change h storage dev port) Any
  unfolding usb_hub_port_connect_change
  connect_change-Keeps port =
      search
        (
          keeps_rules,
          usb_get_port_status-Keeps h conforms used,
          usb_clear_port_feature-Keeps h conforms used,
          disconnects-Keeps,
          reset_and_attach-Keeps,
        )
        depth 12

  scan_connection-Keeps :
      (i : ℕ) (changed : Bool) (new : Option ℕ)
      → Keeps (Tabled used) (scan_connection h storage dev i changed new) Any
  unfolding scan_connection
  scan_connection-Keeps i changed new = search (keeps_rules, connect_change-Keeps)

  scan_enable-Keeps :
      (i portstatus : ℕ) (changed : Bool) (new : Option ℕ)
      → Keeps (Tabled used) (scan_enable h storage dev i portstatus changed new) Any
  unfolding scan_enable
  scan_enable-Keeps i portstatus changed new =
      search
        (
          keeps_rules,
          usb_clear_port_feature-Keeps h conforms used,
          child_of-Keeps,
          scan_connection-Keeps,
        )
        depth 12

  clear_change-Keeps :
      (i feature : ℕ) (flagged : Bool)
      → Keeps (Tabled used) (clear_change h storage dev i feature flagged) Any
  unfolding clear_change
  clear_change-Keeps i feature flagged =
      search (keeps_rules, usb_clear_port_feature-Keeps h conforms used)

  power_after-Keeps : (flagged : Bool) → Keeps (Tabled used) (power_after h storage dev flagged) Any
  unfolding power_after
  power_after-Keeps flagged = search (keeps_rules, usb_hub_power_on-Keeps h conforms used)

  scan_changes-Keeps :
      (i portstatus portchange : ℕ) (new : Option ℕ)
      → Keeps (Tabled used) (scan_changes h storage dev i portstatus portchange new) Any
  unfolding scan_changes
  scan_changes-Keeps i portstatus portchange new =
      search (keeps_rules, clear_change-Keeps, power_after-Keeps) depth 12

  scan_on-Keeps :
      (found : Option (Option ℕ)) (rest : Option ℕ → M State (ℤ × Option ℕ))
      → ((new : Option ℕ) → Keeps (Tabled used) (rest new) Any)
      → Keeps (Tabled used) (scan_on h storage found rest) Any
  unfolding scan_on
  scan_on-Keeps none rest k = Keeps-done (minus_one, none)
  scan_on-Keeps (some new) rest k = k new

  pub usb_hub_scan-Keeps : (i : ℕ) → Keeps (Tabled used) (usb_hub_scan h storage dev i) Any
  unfolding usb_hub_scan
  usb_hub_scan-Keeps i =
      search
        (
          keeps_rules,
          usb_get_port_status-Keeps h conforms used,
          scan_on-Keeps,
          scan_connection-Keeps,
          scan_enable-Keeps,
          scan_changes-Keeps,
        )
        depth 14
