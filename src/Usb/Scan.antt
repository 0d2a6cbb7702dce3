-- ===== src/Usb/Scan.antt =====
-- Enumeration in usb.c: usb_scan_device and usb_scan_roothub.
pub mod Port
pub mod Table
pub mod Updates
use pure_usb.Prelude.{
  ℕ, zero, suc, ◌+◌, ◌==◌, not, ℤ, pos, minus_one, is_negative, is_zero, less_than, List, Option,
  none, some, get_elem?, set, replicate, if◌then◌else◌,
}
use pure_usb.Defs.{usb_dt_device}
use pure_usb.Device.{Device, Buffer}
use pure_usb.Device.Bytes.{byte_at}
use pure_usb.Device.Layout.{
  b_max_packet_size0, device_descriptor_size, i_manufacturer, i_product, i_serial_number,
  b_configuration_value,
}
use pure_usb.Host.{Host}
use pure_usb.Usb.{M, pure, ◌>>=◌, ◌>>◌, get_dev, put_dev, wait_ms}
use pure_usb.Usb.Request.{
  usb_get_descriptor, usb_get_configuration_no, usb_set_address, usb_set_configuration,
}
use pure_usb.Usb.Devices.{usb_alloc_new_device}
use pure_usb.Usb.MaxPacket.{usb_set_maxpacket}
use pure_usb.Usb.Config.{usb_parse_config, usb_is_hub}
use pure_usb.Usb.Strings.{usb_string}
use pure_usb.Usb.Hub.{Storage, hub_port_reset}

-- a value that may be undefined, as a step
abbrev pub known : {S A : Type 0} → Option A → M S A
known none w = none
known (some a) w = some (a, w)

abbrev pub update_dev : {S : Type 0} → ℕ → (Device → Device) → M S (Unit {0})
update_dev dev f = do d ← get_dev dev; put_dev dev (f d)

-- The code of a packet size; any other size leaves the code as it is.
pub packet_size_code : ℕ → ℕ → ℕ
packet_size_code size code =
    if size == 8
    then 0
    else if size == 16
    then 1
    else if size == 32
    then 2
    else if size == 64
    then 3
    else code

-- address 0 and packets of 64 bytes, until the device has told its own
pub unaddressed : Device → Device
unaddressed d = record d {
  devnum = 0;
  descriptor = set d.descriptor b_max_packet_size0 64;
  maxpacketsize = 3;
  epmaxpacketin = set d.epmaxpacketin 0 64;
  epmaxpacketout = set d.epmaxpacketout 0 64;
}

-- the address back, and the packet size of the device descriptor
pub addressed : ℕ → Device → Device
unfolding packet_size_code
addressed addr d =
    let size = byte_at d.descriptor b_max_packet_size0 in
    record d {
      devnum = addr;
      maxpacketsize = packet_size_code size d.maxpacketsize;
      epmaxpacketin = set d.epmaxpacketin 0 size;
      epmaxpacketout = set d.epmaxpacketout 0 size;
    }

-- The port at which the parent has the device, among `left` from `j` on. The outer `none` is a read
-- past the end of `children`.
pub find_port : ℕ → ℕ → List (Option ℕ) → ℕ → Option (Option ℕ)
find_port zero j children dev = some none
find_port (suc left) j children dev =
    let rest = find_port left (j + 1) children dev in
    elim (get_elem? children j) [
      | none ↦ none
      | some none ↦ rest
      | some (some child) ↦ if child == dev then some (some j) else rest
    ]

module _ (h : Host) (storage : Storage) where
  open h use {State}

  -- the port's second reset; a device without a parent has none
  pub reset_again : ℕ → Option ℕ → M State ℤ
  unfolding get_dev find_port
  reset_again dev none = pure (pos 0)
  reset_again dev (some parent) = do
    p ← get_dev parent
    port ← known (find_port p.maxchild 0 p.children dev)
    elim port [
      | none ↦ pure minus_one
      | some j ↦ (do
        (err, portstatus) ← hub_port_reset h (storage.portsts) parent j
        pure (if is_negative err then minus_one else pos 0))
    ]

  -- one of the three strings, if the descriptor has its index
  pub scan_string : ℕ → ℕ → List ℕ → M State (List ℕ)
  scan_string dev index text =
      if index == 0
      then pure text
      else (do (err, text') ← usb_string h (storage.mybuf) dev index text 32; pure text')

  pub scan_strings : ℕ → M State (Unit {0})
  unfolding get_dev put_dev scan_string
  scan_strings dev = do
    update_dev dev
        (λ d. record d { mf = replicate 32 0; prod = replicate 32 0; serial = replicate 32 0 })
    d ← get_dev dev
    mf ← scan_string dev (byte_at d.descriptor i_manufacturer) d.mf
    update_dev dev (λ d. record d { mf = mf })
    d ← get_dev dev
    prod ← scan_string dev (byte_at d.descriptor i_product) d.prod
    update_dev dev (λ d. record d { prod = prod })
    d ← get_dev dev
    serial ← scan_string dev (byte_at d.descriptor i_serial_number) d.serial
    update_dev dev (λ d. record d { serial = serial })

  -- the configuration, once the device descriptor is read
  pub scan_configuration : ℕ → Buffer → M State ℤ
  unfolding get_dev put_dev scan_strings
  scan_configuration dev tmpbuf = do
    (result, bytes) ← usb_get_configuration_no h dev tmpbuf 0
    d ← get_dev dev
    (ret, parsed) ← known (usb_parse_config d bytes 0)
    sized ← known (usb_set_maxpacket parsed)
    put_dev dev sized
    failed ← usb_set_configuration h dev (byte_at sized.config b_configuration_value)
    if not (is_zero failed) then pure minus_one else (do scan_strings dev; pure (pos 0))

  -- the address and the device descriptor
  pub scan_addressed : ℕ → Buffer → M State ℤ
  unfolding get_dev put_dev wait_ms scan_configuration
  scan_addressed dev tmpbuf = do
    err ← usb_set_address h dev
    if is_negative err then pure minus_one else (do
      wait_ms h 10
      d ← get_dev dev
      (err', descriptor) ←
          usb_get_descriptor h dev usb_dt_device 0
            (record { addr = storage.descriptor_at dev; bytes = d.descriptor })
            device_descriptor_size
      update_dev dev (λ d. record d { descriptor = descriptor })
      if less_than err' device_descriptor_size
          then pure minus_one
          else scan_configuration dev tmpbuf)

  pub usb_scan_device : ℕ → M State ℤ
  unfolding get_dev put_dev unaddressed addressed reset_again scan_addressed
  usb_scan_device dev = do
    d ← get_dev dev
    put_dev dev (unaddressed d)
    (err, bytes) ← usb_get_descriptor h dev usb_dt_device 0 (storage.tmpbuf) 64
    if is_negative err then pure minus_one else (do
      update_dev dev (λ d. record d {
        descriptor = set d.descriptor b_max_packet_size0 (byte_at bytes b_max_packet_size0);
      })
      again ← reset_again dev d.parent
      if is_negative again then pure minus_one else (do
        update_dev dev (addressed d.devnum)
        scan_addressed dev (record (storage.tmpbuf) { bytes = bytes })))

  -- The result has the return code and the root hub.
  unfoldable pub usb_scan_roothub : M State (ℤ × Option ℕ)
  unfolding get_dev usb_scan_device
  usb_scan_roothub = do
    root ← usb_alloc_new_device none 0
    elim root [
      | none ↦ pure (minus_one, none)
      | some dev ↦ (do
        ret ← usb_scan_device dev
        if is_negative ret
            then pure (ret, none)
            else (do d ← get_dev dev; pure (ret, if usb_is_hub d 0 == 1 then some dev else none)))
    ]
