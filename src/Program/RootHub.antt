-- ===== src/Program/RootHub.antt =====
-- usb.c and ehci-hcd.c together: the scan of the root hub that the driver emulates.
use pure_usb.Prelude.{ℕ, zero, suc, ◌+◌, ◌≡◌, refl, pos, List, [], ◌∷◌, some, get_elem?, take}
use pure_usb.Defs.{usb_speed_high, usb_class_hub}
use pure_usb.Device.{Device}
use pure_usb.Device.Bytes.{byte_at, overlay}
use pure_usb.Device.Layout.{b_num_interfaces, if_desc, b_interface_class, no_of_ep}
use pure_usb.Pipe.{snd_pipe, rcv_pipe, usb_snddefctrl, usb_pipedevice, usb_pipetype}
use pure_usb.Usb.{World}
use pure_usb.Usb.Message.{usb_control_msg, control_finish}
use pure_usb.Usb.Request.{
  usb_get_configuration_no, usb_set_address, usb_set_configuration, usb_get_string,
}
use pure_usb.Usb.Config.{usb_parse_config, usb_is_hub}
use pure_usb.Usb.MaxPacket.{usb_set_maxpacket}
use pure_usb.Usb.Strings.{usb_string}
use pure_usb.Usb.Devices.{usb_alloc_new_device}
use pure_usb.Usb.Devices.Forest.{initial}
use pure_usb.Usb.Hub.{Storage}
use pure_usb.Usb.Scan.{usb_scan_roothub}
use pure_usb.Ehci.{Controller, Ehci}
use pure_usb.Ehci.Schedule.{Statics}
use pure_usb.Ehci.RootHub.{ehci_submit_root}
use pure_usb.Ehci.Driver.{submit_control_msg, ehci_host}

-- `n` bytes from index `i` on
unfoldable pub filled : (ℕ → ℕ) → ℕ → ℕ → List ℕ
filled f zero i = []
filled f (suc n) i = f i ∷ filled f n (i + 1)

-- the buffers in place, with any bytes in them
abbrev pub buffers :
    (tmp my sts : ℕ) (descriptor_at : ℕ → ℕ) (in_tmp in_my in_sts : ℕ → ℕ) → Storage
buffers tmp my sts descriptor_at in_tmp in_my in_sts = record {
  tmpbuf = record { addr = tmp; bytes = filled in_tmp 512 0 };
  mybuf = record { addr = my; bytes = filled in_my 512 0 };
  portsts = record { addr = sts; bytes = filled in_sts 4 0 };
  descriptor_at = descriptor_at;
}

-- A device as the root hub enumerates: addressed, with high speed and packets of 64 bytes, and with one
-- interface, of the hub class and with one endpoint; and its strings.
pub record IsRootHub (d : Device) : Type 0 where
  pub address : d.devnum ≡ 1
  pub speed : d.speed ≡ usb_speed_high
  pub packets : d.maxpacketsize ≡ 3
  pub interfaces : byte_at d.config b_num_interfaces ≡ 1
  pub hub_class : byte_at d.config (if_desc 0 + b_interface_class) ≡ usb_class_hub
  pub endpoints : byte_at d.config (if_desc 0 + no_of_ep) ≡ 1
  -- "u-boot" and "EHCI Host Controller", each with its terminating 0
  pub manufacturer : take 7 d.mf ≡ 117 ∷ 45 ∷ 98 ∷ 111 ∷ 111 ∷ 116 ∷ 0 ∷ []
  pub product :
      take 21 d.prod
      ≡ 69 ∷ 72 ∷ 67 ∷ 73 ∷ 32 ∷ 72 ∷ 111 ∷ 115 ∷ 116 ∷ 32 ∷ 67 ∷ 111 ∷ 110 ∷ 116 ∷ 114 ∷ 111 ∷ 108
        ∷ 108 ∷ 101 ∷ 114 ∷ 0 ∷ []
  pub is_hub : usb_is_hub d 0 ≡ 1

-- the state that the scan starts from: a device table that `usb_init` has set up, over a driver whose
-- root hub has the address 0
abbrev pub before_scan : {S : Type 0} → World (Ehci S) → Ehci S → World (Ehci S)
before_scan w e = initial (record w { host = record e { rootdev = 0 } })

module _ (c : Controller) (s : Statics) where
  open c use {State}

  -- Over any controller, and whatever the local buffers hold, the scan of the root hub returns 0 and
  -- the device 0, if it starts from a table that `usb_init` has set up and a root hub at address 0. The
  -- device is then the only one, and a hub at address 1, where the driver answers; the driver's schedule and
  -- its recorded accesses are as they were.
  pub usb_scan_roothub-RootHub :
      (w : World (Ehci State)) (e : Ehci State) (tmp my sts : ℕ) (descriptor_at : ℕ → ℕ)
      (in_tmp in_my in_sts : ℕ → ℕ)
      → (w' : World (Ehci State)) × (usb_scan_roothub
            (ehci_host c s)
            (buffers tmp my sts descriptor_at in_tmp in_my in_sts)
            (before_scan w e)
          ≡ some ((pos 0, some 0), w'))
        × (w'.g_dev_index ≡ 1)
        × ((d : Device) × (get_elem? w'.usb_dev 0 ≡ some d) × IsRootHub d)
        × (w'.host.rootdev ≡ 1)
        × (w'.host.memory ≡ e.memory)
        × (w'.host.g_rec ≡ e.g_rec)
  unfolding snd_pipe rcv_pipe usb_snddefctrl usb_pipedevice usb_pipetype usb_alloc_new_device
      control_finish usb_control_msg usb_get_configuration_no usb_set_address usb_set_configuration
      usb_get_string usb_parse_config usb_is_hub usb_set_maxpacket usb_scan_roothub usb_string
      ehci_submit_root submit_control_msg overlay filled
  usb_scan_roothub-RootHub w e tmp my sts descriptor_at in_tmp in_my in_sts = (
    _,
    refl,
    refl,
    (
      _,
      refl,
      record {
        address = refl;
        speed = refl;
        packets = refl;
        interfaces = refl;
        hub_class = refl;
        endpoints = refl;
        manufacturer = refl;
        product = refl;
        is_hub = refl;
      },
    ),
    refl,
    refl,
    refl,
  )
