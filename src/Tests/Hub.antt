-- ===== src/Tests/Hub.antt =====
-- A hub whose ports are always connected and enabled.
use pure_usb.Prelude.{
  minus_one, none, if◌then◌else◌, ◌==◌, ◌<◌, ◌≤◌, ◌⊎◌, ℕ, ◌+◌, ◌≡◌, refl, pos, Option, List, [],
  ◌∷◌, some, none, replicate, arith,
}
use pure_usb.Device.{Device, Buffer, zeroed_device}
use pure_usb.Device.Bytes.{byte_at}
use pure_usb.Host.{Host, Completion}
use pure_usb.Usb.{World, wait_ms}
use pure_usb.Usb.Message.{setup_packet_of, usb_control_msg, control_finish}
use pure_usb.Usb.Hub.{
  Storage, hub_port_reset, usb_set_port_feature, usb_get_port_status, usb_clear_port_feature,
}
use pure_usb.Usb.Hub.Reset.{Enabled, hub_port_reset-Enabled}
use pure_usb.Usb.Hub.Init.{adopt_descriptor}
use pure_usb.Usb.Hub.Init.Bitmap.{adopt_descriptor-removable}
use pure_usb.Usb.Hub.Init.Bounds.{adopt_descriptor-bounds}
use pure_usb.Usb.Hub.Change.{usb_hub_scan}
use pure_usb.Usb.Hub.Change.Laws.{OnlyReset, usb_hub_scan-reset}
use pure_usb.Usb.Scan.{find_port}
use pure_usb.Usb.Scan.Port.{FirstPort, find_port-FirstPort}
use pure_usb.Tests.Usb.{start}

abbrev status : Completion (Unit {0})
status = record { ret = pos 0; dev = zeroed_device; bytes = 3 ∷ 1 ∷ 0 ∷ 0 ∷ []; host = tt }

abbrev enabled : Host
enabled = record {
  State = Unit {0};
  submit_control_msg = λ devs dev pipe buffer len req s. some status;
  submit_bulk_msg = λ devs dev pipe buffer len s. some status;
  submit_int_msg = λ devs dev pipe buffer len interval s. some status;
  mdelay = λ ms s. s;
  udelay = λ us s. s;
}

abbrev pub portsts : Buffer
portsts = record { addr = 0x2000; bytes = replicate 4 0 }

abbrev pub storage : Storage
storage = record {
  tmpbuf = record { addr = 0x3000; bytes = replicate 512 0 };
  mybuf = record { addr = 0x4000; bytes = replicate 512 0 };
  portsts = portsts;
  descriptor_at = λ i. 0x5000 + i;
}

reset_done :
    hub_port_reset enabled portsts 0 0 start
    ≡ some (
      (pos 0, 0x103),
      record start { usb_dev = zeroed_device ∷ []; setup_packet = setup_packet_of 1 0x23 20 1 0 },
    )
unfolding hub_port_reset usb_set_port_feature usb_get_port_status usb_clear_port_feature
    usb_control_msg control_finish wait_ms
reset_done = refl

hub_port_reset-Enabled_example : Enabled 0x103
hub_port_reset-Enabled_example = hub_port_reset-Enabled enabled 0 0 portsts start reset_done

-- the status of a connected, enabled port whose reset has ended
abbrev after_reset : Completion (Unit {0})
after_reset = record {
  ret = pos 0;
  dev = record zeroed_device { act_len = pos 4 };
  bytes = 3 ∷ 1 ∷ 0x10 ∷ 0 ∷ [];
  host = tt;
}

-- a hub that tells this of any port, and clears any change
abbrev resetting : Host
resetting = record {
  State = Unit {0};
  submit_control_msg =
      λ devs dev pipe buffer len req s. if req.request == 0 then some after_reset else some status;
  submit_bulk_msg = λ devs dev pipe buffer len s. some status;
  submit_int_msg = λ devs dev pipe buffer len interval s. some status;
  mdelay = λ ms s. s;
  udelay = λ us s. s;
}

abbrev asked : World (Unit {0})
asked = record start { usb_dev = after_reset.dev ∷ []; setup_packet = setup_packet_of 0 0xa3 0 1 4 }

asked_status :
    usb_get_port_status resetting 0 1 portsts start ≡ some ((pos 4, after_reset.bytes), asked)
unfolding usb_get_port_status usb_control_msg control_finish
asked_status = refl

after_reset-OnlyReset : OnlyReset (after_reset.bytes)
after_reset-OnlyReset = record {
  suspended = refl;
  connection = refl;
  enable = refl;
  overcurrent = refl;
  reset = refl;
}

usb_hub_scan-reset_example :
    (w' : World (Unit {0})) × (usb_hub_scan resetting storage 0 0 start
      ≡ some ((minus_one, none), w'))
usb_hub_scan-reset_example =
    usb_hub_scan-reset resetting storage 0 0 start asked (pos 4) (after_reset.bytes)
      {d = after_reset.dev} {c = status} asked_status refl after_reset-OnlyReset refl refl refl refl

-- two ports, bitmaps 5 and 7
abbrev two_ports : List ℕ
two_ports = 9 ∷ 0x29 ∷ 2 ∷ 0 ∷ 0 ∷ 50 ∷ 0 ∷ 5 ∷ 6 ∷ 7 ∷ 8 ∷ replicate 501 0

adopted :
    adopt_descriptor (replicate 11 0) two_ports
    ≡ some (9 ∷ 0x29 ∷ 2 ∷ 0 ∷ 0 ∷ 50 ∷ 0 ∷ 7 ∷ 0xff ∷ 0xff ∷ 0xff ∷ [])
unfolding adopt_descriptor pure_usb.Device.Bytes.overlay
adopted = refl

adopt_descriptor-removable_example :
    byte_at (9 ∷ 0x29 ∷ 2 ∷ 0 ∷ 0 ∷ 50 ∷ 0 ∷ 7 ∷ 0xff ∷ 0xff ∷ 0xff ∷ []) 7 ≡ 7
adopt_descriptor-removable_example =
    adopt_descriptor-removable (replicate 11 0) two_ports 0 adopted (omega arith)

adopt_descriptor-bounds_example :
    ((byte_at two_ports 0 ≤ 11)
      × (byte_at two_ports 2 ≤ 31)
      × (ys : List ℕ) × (adopt_descriptor (replicate 11 0) two_ports ≡ some ys))
    ⊎ (((11 < byte_at two_ports 0) ⊎ (31 < byte_at two_ports 2))
        × (adopt_descriptor (replicate 11 0) two_ports ≡ none))
adopt_descriptor-bounds_example =
    adopt_descriptor-bounds (replicate 11 0) two_ports refl refl (omega arith)

-- device 4 at the third of eight ports
abbrev ports : List (Option ℕ)
ports = none ∷ some 2 ∷ some 4 ∷ none ∷ some 5 ∷ none ∷ none ∷ none ∷ []

find_port-FirstPort_example :
    (r : Option ℕ) × (find_port 8 0 ports 4 ≡ some r) × FirstPort 0 8 ports 4 r
find_port-FirstPort_example = find_port-FirstPort 8 0 ports 4 (omega arith)
