-- ===== src/Tests/Async.antt =====
-- Two devices behind the counting controller, and transfers to them.
use pure_usb.Prelude.{
  ℕ, ◌-◌, ◌<◌, ◌≡◌, ◌≢◌, refl, ℤ, pos, minus_one, true, false, ◌⊎◌, List, [], ◌∷◌, map, length,
  Option, none, some, arith,
}
use pure_usb.Device.{Device, Buffer, zeroed_device}
use pure_usb.Defs.{pipe_bulk, pipe_control}
use pure_usb.Pipe.{usb_sndbulkpipe, usb_pipedevice, usb_rcvctrlpipe}
use pure_usb.Pipe.Fields.{PipeFits, create-decode}
use pure_usb.Usb.{World}
use pure_usb.Usb.Hub.{usb_get_port_status}
use pure_usb.Usb.Message.{setup_packet_of, usb_bulk_msg, usb_control_msg}
use pure_usb.Ehci.{Ehci}
use pure_usb.Ehci.Schedule.{Statics}
use pure_usb.Ehci.Schedule.Build.Stages.{
  BufferFits, stages, stage_seen, found, built, build_tds-stages,
}
use pure_usb.Ehci.Schedule.Build.Token.{AllStages, StageFields, stages-Fields}
use pure_usb.Ehci.Async.{parent_devnum, ehci_submit_async}
use pure_usb.Ehci.Async.Run.{Ended, last_token, KeepsLinks}
use pure_usb.Ehci.Async.Submit.{Returns, ehci_submit_async-Ended}
use pure_usb.Ehci.Driver.{ehci_host}
use pure_usb.Ehci.Driver.Transfers.{
  submitted, BulkEnds, ControlEnds, usb_bulk_msg-ends, usb_control_msg-ends,
}
use pure_usb.Ehci.Driver.Ports.{usb_get_port_status-Reports}
use pure_usb.Ehci.RootHub.Answer.{port_register}
use pure_usb.Ehci.RootHub.Status.{Reports}
use pure_usb.Ehci.Handshake.Kept.{variables}
use pure_usb.Ehci.Init.{ehci_init}
use pure_usb.Ehci.Init.Laws.{IsReady, reset_and_listed, ehci_init-IsReady}
use pure_usb.Tests.Ehci.{counting, idle, blank_memory}

abbrev pub placed : Statics
placed = record { qh_list_at = 0x8000; qh_at = 0x8100; td_at = 0x8200; setup_at = 0x8300 }

abbrev pub hub : Device
hub = record zeroed_device { devnum = 1; speed = 2; maxpacketsize = 3 }

abbrev pub stick : Device
stick = record zeroed_device {
  devnum = 2;
  speed = 2;
  maxpacketsize = 3;
  parent = some 0;
  status = 0x80000000;
}

abbrev pub plugged : World (Ehci ℕ)
plugged = record {
  usb_dev = hub ∷ stick ∷ [];
  g_dev_index = 2;
  running = 0;
  asynch_allowed = false;
  usb_started = true;
  setup_packet = record { requesttype = 0; request = 0; value = 0; index = 0; length = 0 };
  host = record idle { rootdev = 1 };
}

abbrev pub block : Buffer
block = record { addr = 0x1ff0; bytes = 1 ∷ 2 ∷ 3 ∷ 4 ∷ [] }

abbrev pub to_stick : ℕ
to_stick = usb_sndbulkpipe stick 1

-- a controller that does nothing to the memory
counting-keeps : KeepsLinks counting placed
counting-keeps m hw l = l

pub block-BufferFits : BufferFits placed 0x1ff0 4
block-BufferFits = record {
  aligned = refl;
  setup_in = omega arith;
  buffer_in = omega arith;
  address = omega arith;
  pages = omega arith;
}

stick-PipeFits : (endpoint : ℕ) → endpoint < 16 → PipeFits stick endpoint
stick-PipeFits endpoint h = record {
  devnum_fits = omega arith;
  endpoint_fits = h;
  speed_fits = omega arith;
  size_fits = omega arith;
}

build_tds-stages_example :
    ((built placed stick to_stick 0x1ff0 4 blank_memory none).0
      ≡ some (some (length (stages placed stick to_stick 0x1ff0 4 none) - 1)))
    × (found placed stick to_stick 0x1ff0 4 blank_memory
          (built placed stick to_stick 0x1ff0 4 blank_memory none).1
        ≡ some (map stage_seen (stages placed stick to_stick 0x1ff0 4 none)))
build_tds-stages_example =
    build_tds-stages placed stick to_stick 0x1ff0 4 blank_memory none block-BufferFits

stages-Fields_example : AllStages StageFields (stages placed stick to_stick 0x1ff0 4 none)
stages-Fields_example = stages-Fields placed stick to_stick 0x1ff0 4 none block-BufferFits

pub hub_above : parent_devnum (hub ∷ stick ∷ []) stick ≡ some 1
unfolding parent_devnum
hub_above = refl

ehci_submit_async-Ended_example :
    Returns
      (λ token. Ended token stick to_stick 4)
      (ehci_submit_async counting placed (hub ∷ stick ∷ []) stick to_stick block 4 none idle)
ehci_submit_async-Ended_example =
    ehci_submit_async-Ended counting placed counting-keeps (hub ∷ stick ∷ []) stick to_stick 1 block
      4 none idle hub_above block-BufferFits refl

usb_bulk_msg-ends_example :
    (r : ℤ × Option ℤ × List ℕ) × (w' : World (Ehci ℕ)) × (usb_bulk_msg
        (ehci_host counting placed)
        1
        to_stick
        block
        4
        5
        plugged
      ≡ some (r, w'))
    × BulkEnds (last_token (submitted counting placed 1 to_stick block 4 none stick plugged)) 4 r
usb_bulk_msg-ends_example =
    usb_bulk_msg-ends counting placed counting-keeps 1 to_stick 4 5 block plugged {d = stick}
      {parent = 1} refl hub_above
      ((create-decode pipe_bulk (omega arith) (stick-PipeFits 1 (omega arith))).0.pipetype)
      block-BufferFits

stick_not_root : usb_pipedevice (usb_rcvctrlpipe stick 0) ≢ 1
stick_not_root h = absurd (
    omega (
      arith,
      h,
      (create-decode pipe_control (omega arith) (stick-PipeFits 0 (omega arith))).1.pipedevice,
    ))

usb_control_msg-ends_example :
    (r : ℤ × List ℕ) × (w' : World (Ehci ℕ)) × (usb_control_msg
        (ehci_host counting placed)
        1
        (usb_rcvctrlpipe stick 0)
        0
        0x80
        0
        0
        block
        2
        100
        plugged
      ≡ some (r, w'))
    × ControlEnds
        (last_token (
          submitted counting placed 1
            (usb_rcvctrlpipe stick 0)
            block
            2
            (some (setup_packet_of 0 0x80 0 0 2))
            stick
            plugged))
        2
        r
usb_control_msg-ends_example =
    usb_control_msg-ends counting placed counting-keeps 1 (usb_rcvctrlpipe stick 0) 0 0x80 0 0 2 100
      block plugged {d = stick} {parent = 1} refl hub_above
      ((create-decode pipe_control (omega arith) (stick-PipeFits 0 (omega arith))).1.pipetype)
      stick_not_root
      (record {
        aligned = refl;
        setup_in = omega arith;
        buffer_in = omega arith;
        address = omega arith;
        pages = omega arith;
      })
      refl

hub-PipeFits : PipeFits hub 0
hub-PipeFits = record {
  devnum_fits = omega arith;
  endpoint_fits = omega arith;
  speed_fits = omega arith;
  size_fits = omega arith;
}

usb_get_port_status-Reports_example :
    (bytes : List ℕ) × (w' : World (Ehci ℕ)) × (usb_get_port_status
        (ehci_host counting placed)
        0
        1
        block
        plugged
      ≡ some ((pos 4, bytes), w'))
    × Reports bytes (port_register counting 1 plugged.host) plugged.host.portreset 1
usb_get_port_status-Reports_example =
    usb_get_port_status-Reports counting placed 0 1 block plugged {d = hub} refl hub-PipeFits refl
      (omega arith) refl

ehci_init-IsReady_example :
    (((ehci_init counting placed idle).0 ≡ pos 0)
      × IsReady counting placed idle.w_hub_characteristics
          (reset_and_listed counting placed idle)
          (ehci_init counting placed idle).1)
    ⊎ (((ehci_init counting placed idle).0 ≡ minus_one)
        × (variables (ehci_init counting placed idle).1 ≡ variables idle))
ehci_init-IsReady_example = ehci_init-IsReady counting placed idle refl
