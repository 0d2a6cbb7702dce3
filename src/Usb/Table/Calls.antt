-- ===== src/Usb/Table/Calls.antt =====
-- The functions of usb.c that talk to a device, and the device table.
use pure_usb.Prelude.{ℕ, ◌<◌}
use pure_usb.Device.{Buffer}
use pure_usb.Host.{Host}
use pure_usb.Usb.Keeps.{Keeps, Any}
use pure_usb.Usb.Table.{Tabled, Conforms}
use pure_usb.Usb.Message.{usb_bulk_msg}
use pure_usb.Usb.Message.Table.{usb_bulk_msg-Keeps}
use pure_usb.Usb.Request.{usb_set_interface, usb_clear_halt}
use pure_usb.Usb.Request.Table.{usb_set_interface-Keeps, usb_clear_halt-Keeps}
use pure_usb.Usb.Hub.{Storage}
use pure_usb.Usb.Hub.Init.{usb_hub_init}
use pure_usb.Usb.Hub.Init.Table.{usb_hub_init-Keeps}
use pure_usb.Usb.Scan.{usb_scan_device}
use pure_usb.Usb.Scan.Table.{usb_scan_device-Keeps}
use pure_usb.Usb.Hub.Change.{usb_hub_scan}
use pure_usb.Usb.Hub.Change.Table.{usb_hub_scan-Keeps}

module _ (h : Host) (conforms : Conforms h) (storage : Storage) (used dev : ℕ) where
  -- Over any driver that gives a device back with its parent, children and array sizes, a bulk message,
  -- the setting of an interface, the clearing of a halt, the enumeration of a device, the start of a
  -- hub and, for a device among the first `used`, the scan of a hub's port keep the device table:
  -- wherever they return, whatever the devices answer, at least `used` devices are assigned, they are
  -- linked as a forest, and each device's arrays have the sizes that `struct usb_device` declares.
  pub usb_calls-Keeps :
      (pipe interface alternate port len timeout : ℕ) (buffer : Buffer)
      → dev < used
      → Keeps (Tabled used) (usb_bulk_msg h dev pipe buffer len timeout) Any
        × Keeps (Tabled used) (usb_set_interface h dev interface alternate) Any
        × Keeps (Tabled used) (usb_clear_halt h dev pipe) Any
        × Keeps (Tabled used) (usb_scan_device h storage dev) Any
        × Keeps (Tabled used) (usb_hub_init h storage dev) Any
        × Keeps (Tabled used) (usb_hub_scan h storage dev port) Any
  usb_calls-Keeps pipe interface alternate port len timeout buffer assigned = (
    usb_bulk_msg-Keeps h conforms used dev pipe buffer len timeout,
    usb_set_interface-Keeps h conforms used dev interface alternate,
    usb_clear_halt-Keeps h conforms used dev pipe,
    usb_scan_device-Keeps h conforms storage used dev,
    usb_hub_init-Keeps h conforms storage used dev,
    usb_hub_scan-Keeps h conforms storage used dev assigned port,
  )
